-- ===== src/Contract/Rounds.antt =====
-- pre_forward of the root and of a worker, and post_end of the worker, in
-- crates/contract/src/lib.rs: the rounds of a chat.
use decentralized_llm_infere.Base.{
  ℕ, suc, ◌+◌, ◌<◌, ◌≡◌, ◌≢◌, ◌^◌, refl, sym, subst, ap, ◌∙◌, false, some, List, [], ◌∷◌, ◌++◌,
  ◌==◌, HashMap, insert, get-insert_same, nat_key, length, arith, Outcome, done, expect, ◌>>=◌,
}
use decentralized_llm_infere.Protocol.Llm.{ForwardReq, EndReq, EndRes}
use decentralized_llm_infere.Contract.Storage.{get_count, increase, finish, get_count-increase}
use decentralized_llm_infere.Contract.Validator.{
  Crypto, Checkpoint, get_checkpoint, create_checkpoint, sign_checkpoint,
}
use decentralized_llm_infere.Contract.Service.{
  OnChainService, OnChainServiceMetadata, Chain, ChainCall, claim_tokens, pre_forward, post_end,
  root_metadata,
}
use decentralized_llm_infere.Contract.Earning.{IsSigned, paid, accept}

count_up :
    (chat_id n : ℕ) (s : HashMap ℕ ℕ)
    → get_count chat_id s ≡ n
    → suc n < 2 ^ 64
    → get_count chat_id (increase chat_id 1 s) ≡ suc n
count_up chat_id n s h fits = ground (arith, get_count-increase chat_id chat_id 1 s)

module _ (crypto : Crypto) (root_chain worker_chain : Chain) where
  -- A forward request goes from the root, at the head of the chain, to a worker behind it.
  abbrev pub round :
      ℕ → ForwardReq → OnChainService × OnChainService → Outcome (OnChainService × OnChainService)
  round chat_id req (root, worker) =
      pre_forward crypto root_chain chat_id (record req { chain_index = 0 }) root >>= λ sent.
      expect sent.0 >>= λ passed.
      pre_forward crypto worker_chain chat_id (record passed { chain_index = 1 }) worker
      >>= λ taken. done (sent.1, taken.1)

  abbrev pub rounds :
      ℕ
      → List ForwardReq
      → OnChainService × OnChainService
      → Outcome (OnChainService × OnChainService)
  rounds chat_id [] nodes = done nodes
  rounds chat_id (req ∷ reqs) nodes = round chat_id req nodes >>= rounds chat_id reqs

  -- The checkpoint of n tokens that the root makes.
  abbrev pub checkpoint_of : ℕ → OnChainService → Checkpoint
  checkpoint_of n root = record {
    token_count = n;
    signature = sign_checkpoint crypto n root.validator;
  }

  -- Both count n tokens of the chat, and the worker holds the checkpoint of as many.
  abbrev pub Agree : ℕ → ℕ → OnChainService × OnChainService → Type 0
  Agree chat_id n (root, worker) =
      (get_count chat_id root.spending ≡ n)
      × (get_count chat_id worker.earning ≡ n)
      × ((0 < n) → get_checkpoint chat_id worker.validator ≡ some (checkpoint_of n root))

  -- The worker knows the root's key, with which the checkpoints it makes verify.
  abbrev pub Trusts : ℕ → OnChainService × OnChainService → Type 0
  Trusts chat_id (root, worker) = (n : ℕ) → IsSigned crypto chat_id (checkpoint_of n root) worker

  module _
      (bincode : (m : OnChainServiceMetadata)
        → worker_chain.deserialize (root_chain.serialize m) ≡ some m) where
    round-Agree :
        (chat_id n : ℕ) (req : ForwardReq) (root worker : OnChainService)
        → suc n < 2 ^ 64
        → Trusts chat_id (root, worker)
        → Agree chat_id n (root, worker)
        → (root' : OnChainService) × (worker' : OnChainService) × (round chat_id req (root, worker)
            ≡ done (root', worker'))
          × Trusts chat_id (root', worker')
          × Agree chat_id (suc n) (root', worker')
          × (root'.validator.root_sk ≡ root.validator.root_sk)
          × (worker'.calls ≡ worker.calls)
    unfolding pre_forward create_checkpoint sign_checkpoint get_checkpoint root_metadata
    round-Agree chat_id n req root worker fits trusts (spent, earned, held) =
        let count = count_up chat_id n root.spending spent fits in
        let c = checkpoint_of (suc n) root in
        let m = root_metadata crypto root_chain (some c) in
        let sent : ForwardReq = record req { metadata = root_chain.serialize m; chain_index = 1 } in
        let taken =
          accept crypto worker_chain chat_id sent m c worker (λ e. omega arith) (bincode m) refl
            (trusts (suc n)) in
        let root' = record root {
          spending = increase chat_id 1 root.spending;
          validator = record root.validator {
            checkpoints = insert chat_id c root.validator.checkpoints;
          };
        } in
        (
          root',
          paid crypto chat_id c worker,
          rw
              (
                count,
                get-insert_same chat_id c root.validator.checkpoints,
                taken,
                pre_forward,
                create_checkpoint,
              )
              refl,
          trusts,
          (
            count,
            count_up chat_id n worker.earning earned fits,
            λ h. get-insert_same chat_id c worker.validator.checkpoints,
          ),
          refl,
          refl,
        )

    rounds-Agree :
        (chat_id n : ℕ) (reqs : List ForwardReq) (root worker : OnChainService)
        → n + length reqs < 2 ^ 64
        → Trusts chat_id (root, worker)
        → Agree chat_id n (root, worker)
        → (root' : OnChainService) × (worker' : OnChainService) × (rounds chat_id reqs
              (root, worker)
            ≡ done (root', worker'))
          × Agree chat_id (n + length reqs) (root', worker')
          × (root'.validator.root_sk ≡ root.validator.root_sk)
          × (worker'.calls ≡ worker.calls)
    rounds-Agree chat_id n [] root worker fits trusts agree =
        let plus : n + 0 ≡ n = omega arith in
        (
          root,
          worker,
          refl,
          subst (λ k. Agree chat_id k (root, worker)) (sym plus) agree,
          refl,
          refl,
        )
    rounds-Agree chat_id n (req ∷ reqs) root worker fits trusts agree =
        let (root1, worker1, run, trusts1, agree1, key1, calls1) =
          round-Agree chat_id n req root worker (omega arith) trusts agree in
        let (root2, worker2, run2, agree2, key2, calls2) =
          rounds-Agree chat_id (suc n) reqs root1 worker1 (omega arith) trusts1 agree1 in
        let plus : suc n + length reqs ≡ n + length (req ∷ reqs) = omega arith in
        (
          root2,
          worker2,
          rw run run2,
          subst (λ k. Agree chat_id k (root2, worker2)) plus agree2,
          key2 ∙ key1,
          calls2 ∙ calls1,
        )

    -- Let a worker know the root's key, with which the root's checkpoints verify, let neither have
    -- a count of the chat, and let bincode read back what it writes. After any number of forward
    -- requests from the root, at least one and fewer than 2^64, all of them taken, the root has
    -- spent one token for each, and when the chat ends the worker claims that number of tokens,
    -- once, with a signature by the root's key of exactly that number.
    pub rounds-post_end :
        (chat_id : ℕ) (reqs : List ForwardReq) (root worker : OnChainService) (req : EndReq)
        (res : EndRes) (m : OnChainServiceMetadata)
        → 0 < length reqs
        → length reqs < 2 ^ 64
        → Trusts chat_id (root, worker)
        → get_count chat_id root.spending ≡ 0
        → get_count chat_id worker.earning ≡ 0
        → req.chain_index ≢ 0
        → worker_chain.deserialize res.metadata ≡ some m
        → (root' : OnChainService) × (worker' : OnChainService) × (ended : OnChainService) × (rounds
              chat_id reqs
              (root, worker)
            ≡ done (root', worker'))
          × (get_count chat_id root'.spending ≡ length reqs)
          × (post_end crypto worker_chain chat_id req res worker' ≡ done (res, ended))
          × (ended.calls
              ≡ worker.calls
                ++ claim_tokens m.root_address chat_id
                    (length reqs)
                    (crypto.sign root.validator.root_sk (crypto.to_bytes (length reqs)))
                  ∷ [])
    unfolding post_end finish sign_checkpoint
    rounds-post_end chat_id reqs root worker req res m pos fits trusts spent earned inner parsed =
        let (root', worker', run, agree0, key, calls) =
          rounds-Agree chat_id 0 reqs root worker (omega arith) trusts
            (spent, earned, λ h. absurd (omega arith)) in
        let deep : (req.chain_index == 0) ≡ false = ground arith in
        let plus : 0 + length reqs ≡ length reqs = omega arith in
        let agree = subst (λ k. Agree chat_id k (root', worker')) plus agree0 in
        let held = agree.2 (omega arith) in
        let call : ℕ → List ℕ → ChainCall = λ n sk.
          claim_tokens m.root_address chat_id n (crypto.sign sk (crypto.to_bytes (length reqs))) in
        let ended : OnChainService = record worker' {
          earning = (finish chat_id worker'.earning).1;
          calls =
              worker'.calls
              ++ call (get_count chat_id worker'.earning) root'.validator.root_sk ∷ [];
        } in
        (
          root',
          worker',
          ended,
          run,
          agree.0,
          rw (deep, parsed, held, post_end, finish) refl,
          ap (λ cs. cs ++ call (get_count chat_id worker'.earning) root'.validator.root_sk ∷ [])
                calls
              ∙ ap (λ n. worker.calls ++ call n root'.validator.root_sk ∷ []) agree.1
              ∙ ap (λ sk. worker.calls ++ call (length reqs) sk ∷ []) key,
        )
