-- ===== src/Contract/Earning.antt =====
-- pre_forward and post_end of crates/contract/src/lib.rs: what a worker earns.
use decentralized_llm_infere.Base.{
  ℕ, ◌+◌, ◌<◌, ◌≡◌, ◌≢◌, ◌^◌, refl, sym, ap, ◌∙◌, inl, inr, true, false, Option, none, some, List,
  ◌==◌, get, insert, get-insert_same, nat_key, length, arith, done, ◌>>=◌, Option-cases,
  Outcome-cases, ◌⊎◌, done-injective,
}
use decentralized_llm_infere.Protocol.Llm.{ForwardReq}
use decentralized_llm_infere.Contract.Storage.{get_count, increase, get_count-increase}
use decentralized_llm_infere.Contract.Validator.{
  Crypto, Checkpoint, get_checkpoint, update_checkpoint, verify_checkpoint,
}
use decentralized_llm_infere.Contract.Service.{
  OnChainService, OnChainServiceMetadata, Chain, pre_forward,
}

module _ (crypto : Crypto) where
  -- The checkpoint is signed by the key that is known for the chat.
  abbrev pub IsSigned : ℕ → Checkpoint → OnChainService → Type 0
  IsSigned chat_id checkpoint s =
      (pk : List ℕ) × (key : List ℕ) × (get chat_id s.validator.root_pks ≡ some pk)
      × (crypto.from_bytes pk ≡ some key)
      × (length checkpoint.signature ≡ 64)
      × (crypto.verify_strict key (crypto.to_bytes checkpoint.token_count) checkpoint.signature
          ≡ true)

  verify-IsSigned :
      (chat_id : ℕ) (c : Checkpoint) (s : OnChainService)
      → verify_checkpoint crypto chat_id c s.validator ≡ done true
      → IsSigned chat_id c s
  unfolding verify_checkpoint
  verify-IsSigned chat_id c s h = elim (Option-cases (get chat_id s.validator.root_pks)) [
    | inl unknown ↦ absurd (ground (arith, h))
    | inr (pk, known) ↦ elim (Option-cases (crypto.from_bytes pk)) [
      | inl garbled ↦ absurd (ground (arith, h, known))
      | inr (key, parsed) ↦ (
        pk,
        key,
        known,
        parsed,
        ground (arith, h, known, parsed),
        ground (arith, h, known, parsed),
      )
    ]
  ]

  IsSigned-verify :
      (chat_id : ℕ) (c : Checkpoint) (s : OnChainService)
      → IsSigned chat_id c s
      → verify_checkpoint crypto chat_id c s.validator ≡ done true
  unfolding verify_checkpoint
  IsSigned-verify chat_id c s (pk, key, known, parsed, long, valid) =
      let long' : (length c.signature == 64) ≡ true = ground arith in
      rw (known, parsed, long', valid, verify_checkpoint) refl

  -- The state of a worker that took a checkpoint.
  abbrev pub paid : ℕ → Checkpoint → OnChainService → OnChainService
  paid chat_id c s = record s {
    earning = increase chat_id 1 s.earning;
    validator = record s.validator { checkpoints = insert chat_id c s.validator.checkpoints };
  }

  module _ (chain : Chain) where
    pub accept :
        (chat_id : ℕ) (req : ForwardReq) (m : OnChainServiceMetadata) (c : Checkpoint)
        (s : OnChainService)
        → req.chain_index ≢ 0
        → chain.deserialize req.metadata ≡ some m
        → m.checkpoint ≡ some c
        → IsSigned chat_id c s
        → pre_forward crypto chain chat_id req s ≡ done (some req, paid chat_id c s)
    unfolding pre_forward update_checkpoint
    accept chat_id req m c s worker parsed has signed =
        let deep : (req.chain_index == 0) ≡ false = ground arith in
        rw (deep, parsed, has, IsSigned-verify chat_id c s signed, pre_forward, update_checkpoint)
          refl

    -- When a worker that is not the root handles a forward request without a panic, either it
    -- refuses the request and stays as it was, or the request carries a checkpoint that the key of
    -- the chat's root has signed, and the worker keeps that checkpoint and earns one token.
    pub pre_forward-IsSigned :
        (chat_id : ℕ) (req : ForwardReq) (s s' : OnChainService) (answer : Option ForwardReq)
        → req.chain_index ≢ 0
        → pre_forward crypto chain chat_id req s ≡ done (answer, s')
        → ((answer ≡ none) × (s' ≡ s))
          ⊎ ((m : OnChainServiceMetadata) × (c : Checkpoint) × (chain.deserialize req.metadata
                ≡ some m)
              × (m.checkpoint ≡ some c)
              × IsSigned chat_id c s
              × (answer ≡ some req)
              × (s' ≡ paid chat_id c s))
    unfolding pre_forward update_checkpoint
    pre_forward-IsSigned chat_id req s s' answer worker h =
        let deep : (req.chain_index == 0) ≡ false = ground arith in
        elim (Option-cases (chain.deserialize req.metadata)) [
          | inl garbled ↦ absurd (ground (arith, h, deep))
          | inr (m, parsed) ↦ elim (Option-cases m.checkpoint) [
            | inl without ↦
                let run : pre_forward crypto chain chat_id req s ≡ done (none, s) =
                  rw (deep, parsed, without, pre_forward) refl in
                let same = done-injective (sym h ∙ run) in
                inl (ap (λ r. r.0) same, ap (λ r. r.1) same)
            | inr (c, has) ↦ elim (Outcome-cases (verify_checkpoint crypto chat_id c s.validator)) [
              | inl broken ↦ absurd (ground (arith, h, deep, parsed, has))
              | inr (true, valid) ↦
                  let signed = verify-IsSigned chat_id c s valid in
                  let run = accept chat_id req m c s worker parsed has signed in
                  let same = done-injective (sym h ∙ run) in
                  inr (m, c, parsed, has, signed, ap (λ r. r.0) same, ap (λ r. r.1) same)
              | inr (false, invalid) ↦
                  let run : pre_forward crypto chain chat_id req s ≡ done (none, s) =
                    rw (deep, parsed, has, invalid, pre_forward, update_checkpoint) refl in
                  let same = done-injective (sym h ∙ run) in
                  inl (ap (λ r. r.0) same, ap (λ r. r.1) same)
            ]
          ]
        ]

    -- At a worker that is not the root, a forward request whose checkpoint the key of the chat's
    -- root has signed, taken twice, is earned twice, if the count stays below 2^64, although the
    -- checkpoint that the worker can show stands for the tokens of one.
    pub pre_forward_twice :
        (chat_id : ℕ) (req : ForwardReq) (m : OnChainServiceMetadata) (c : Checkpoint)
        (s : OnChainService)
        → req.chain_index ≢ 0
        → chain.deserialize req.metadata ≡ some m
        → m.checkpoint ≡ some c
        → IsSigned chat_id c s
        → get_count chat_id s.earning + 2 < 2 ^ 64
        → (twice : OnChainService) × ((pre_forward crypto chain chat_id req s >>= λ once.
              pre_forward crypto chain chat_id req once.1)
            ≡ done (some req, twice))
          × (get_count chat_id twice.earning ≡ get_count chat_id s.earning + 2)
          × (get_checkpoint chat_id twice.validator ≡ some c)
    unfolding get_checkpoint
    pre_forward_twice chat_id req m c s worker parsed has signed fits =
        let first = accept chat_id req m c s worker parsed has signed in
        let second = accept chat_id req m c (paid chat_id c s) worker parsed has signed in
        let one = get_count-increase chat_id chat_id 1 s.earning in
        let two = get_count-increase chat_id chat_id 1 (paid chat_id c s).earning in
        (
          paid chat_id c (paid chat_id c s),
          rw first second,
          ground (arith, one, two),
          get-insert_same chat_id c (paid chat_id c s).validator.checkpoints,
        )
