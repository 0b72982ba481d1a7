-- ===== src/Contract/Service.antt =====
-- OnChainService of crates/contract/src/lib.rs: the usage service that counts tokens and signs and
-- checks checkpoints. The chain's answer to `create_session` and bincode are parameters; what is
-- sent to the chain is logged. An address is a number.
use decentralized_llm_infere.Base.{
  ℕ, ◌+◌, ◌-◌, ◌^◌, Bool, false, Option, none, some, List, [], ◌∷◌, ◌++◌, ◌==◌, if◌then◌else◌,
  nat_key, u32, Outcome, done, expect, ◌>>=◌,
}
use decentralized_llm_infere.Protocol.Llm.{
  StartReq, StartRes, ForwardReq, ForwardRes, EndReq, EndRes,
}
use decentralized_llm_infere.Usage.{WorkerUsageService}
use decentralized_llm_infere.Contract.Storage.{OnChainStorage, get_count, increase, finish, sum}
use decentralized_llm_infere.Contract.Validator.{
  Crypto, Checkpoint, OnChainValidator, add_root_pk, get_checkpoint, create_checkpoint,
  update_checkpoint,
}
use decentralized_llm_infere.Contract.Validator

pub record OnChainServiceMetadata : Type 0 where
  pub addresses : List ℕ
  pub root_address : ℕ
  pub root_pk : List ℕ
  pub layers : List ℕ
  pub checkpoint : Option Checkpoint

-- The calls of the chain's client.
pub data ChainCall : Type 0 where
  create_session : (chat_id max_token : ℕ) → (participants layers : List ℕ) → ChainCall
  claim_tokens : (root : ℕ) → (chat_id token_count : ℕ) → (signature : List ℕ) → ChainCall

-- What the code uses of bincode, of the account and of the chain. The chain's answer is `true`
-- for `Ok`.
pub record Chain : Type 0 where
  pub serialize : OnChainServiceMetadata → List ℕ
  pub deserialize : List ℕ → Option OnChainServiceMetadata
  pub address : ℕ
  pub public_key : List ℕ
  pub accepts : ChainCall → Bool

pub record OnChainService : Type 0 where
  pub earning : OnChainStorage
  pub spending : OnChainStorage
  pub layers_start : ℕ
  pub layers_end : ℕ
  pub validator : OnChainValidator
  pub calls : List ChainCall

unfoldable pub new : List ℕ → ℕ → ℕ → OnChainService
new secret start end = record {
  earning = [];
  spending = [];
  layers_start = start;
  layers_end = end;
  validator = Validator.new secret;
  calls = [];
}

unfoldable pub spending_token_count : OnChainService → ℕ
spending_token_count s = sum s.spending

unfoldable pub earning_token_count : OnChainService → ℕ
earning_token_count s = sum s.earning

-- Its result is only logged.
unfoldable pub commit_session : ℕ → OnChainService → OnChainService
commit_session chat_id s = record s { spending = (finish chat_id s.spending).1 }

module _ (crypto : Crypto) (chain : Chain) where
  -- The metadata that the head of the chain sends.
  unfoldable pub root_metadata : Option Checkpoint → OnChainServiceMetadata
  root_metadata checkpoint = record {
    addresses = [];
    root_address = chain.address;
    root_pk = chain.public_key;
    layers = [];
    checkpoint = checkpoint;
  }

  unfoldable pub pre_start : StartReq → OnChainService → Outcome (Option StartReq × OnChainService)
  pre_start req s =
      if req.chain_index == 0
      then done (some (record req { metadata = chain.serialize (root_metadata none) }), s)
      else (expect (chain.deserialize req.metadata) >>= λ pre_metadata. done (
        some req,
        record s { validator = add_root_pk req.chat_id pre_metadata.root_pk s.validator },
      ))

  -- The metadata with this worker behind the participants.
  unfoldable pub joined :
      StartReq → OnChainServiceMetadata → OnChainService → OnChainServiceMetadata
  joined req pre_metadata s = record {
    addresses = pre_metadata.addresses ++ chain.address ∷ [];
    root_address = pre_metadata.root_address;
    root_pk = pre_metadata.root_pk;
    layers = pre_metadata.layers ++ u32 (s.layers_end + 2 ^ 32 - req.from_layer + 1) ∷ [];
    checkpoint = none;
  }

  unfoldable pub post_start :
      StartReq → StartRes → OnChainService → Outcome (StartRes × OnChainService)
  post_start req res s = expect (chain.deserialize res.metadata) >>= λ pre_metadata.
      if req.chain_index == 0
      then (let call =
            create_session req.chat_id req.max_tokens pre_metadata.addresses pre_metadata.layers in
          let s' = record s { calls = s.calls ++ call ∷ [] } in
          if chain.accepts call then done (res, s') else done (record res { success = false }, s'))
      else done (record res { metadata = chain.serialize (joined req pre_metadata s) }, s)

  unfoldable pub pre_end : ℕ → EndReq → OnChainService → Outcome (Option EndReq × OnChainService)
  pre_end chat_id req s =
      if req.chain_index == 0
      then done (
        some (record req { metadata = chain.serialize (root_metadata none) }),
        commit_session chat_id s,
      )
      else done (some req, s)

  -- A claim is spawned; its answer is only logged.
  unfoldable pub post_end : ℕ → EndReq → EndRes → OnChainService → Outcome (EndRes × OnChainService)
  post_end chat_id req res s =
      if req.chain_index == 0
      then done (res, s)
      else (expect (chain.deserialize res.metadata) >>= λ metadata.
          let (token_count, earning) = finish chat_id s.earning in
          let s' = record s { earning = earning } in
          elim (get_checkpoint chat_id s.validator) [
            | some checkpoint ↦ done (
              res,
              record s' {
                calls =
                    s.calls
                    ++ claim_tokens metadata.root_address chat_id token_count checkpoint.signature
                      ∷ [];
              },
            )
            | none ↦ done (record res { success = false }, s')
          ])

  unfoldable pub pre_forward :
      ℕ → ForwardReq → OnChainService → Outcome (Option ForwardReq × OnChainService)
  pre_forward chat_id req s =
      if req.chain_index == 0
      then (let spending = increase chat_id 1 s.spending in
          create_checkpoint crypto chat_id (get_count chat_id spending) s.validator >>= λ created.
          done (
            some (record req { metadata = chain.serialize (root_metadata (some created.0)) }),
            record s { spending = spending; validator = created.1 },
          ))
      else (expect (chain.deserialize req.metadata) >>= λ pre_metadata.
          elim pre_metadata.checkpoint [
            | none ↦ done (none, s)
            | some checkpoint ↦
                update_checkpoint crypto chat_id checkpoint s.validator >>= λ updated.
                if updated.0
                then done (
                  some req,
                  record s { earning = increase chat_id 1 s.earning; validator = updated.1 },
                )
                else done (none, record s { validator = updated.1 })
          ])

  unfoldable pub post_forward :
      ℕ → ForwardReq → ForwardRes → OnChainService → Outcome (ForwardRes × OnChainService)
  post_forward chat_id req res s = done (res, s)

  -- `impl WorkerUsageService for OnChainService`
  unfoldable pub service : WorkerUsageService OnChainService
  service = record {
    pre_start = pre_start;
    post_start = post_start;
    pre_end = pre_end;
    post_end = post_end;
    pre_forward = pre_forward;
    post_forward = post_forward;
  }
