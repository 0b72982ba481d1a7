-- ===== src/Contract/Validator.antt =====
-- OnChainValidator of crates/contract/src/validator.rs. The signature scheme (ed25519_dalek) and
-- the bytes of a number (bcs) are parameters; keys and signatures are lists of bytes.
use decentralized_llm_infere.Base.{
  ℕ, Bool, true, false, Option, none, some, List, [], HashMap, get, insert, nat_key, length, ◌==◌,
  if◌then◌else◌, Outcome, done, panicked, expect, ◌>>=◌,
}

-- What the code uses of ed25519_dalek and bcs.
pub record Crypto : Type 0 where
  pub sign : List ℕ → List ℕ → List ℕ
  pub from_bytes : List ℕ → Option (List ℕ)
  pub verify_strict : List ℕ → List ℕ → List ℕ → Bool
  pub to_bytes : ℕ → List ℕ

pub record Checkpoint : Type 0 where
  pub token_count : ℕ
  pub signature : List ℕ

pub record OnChainValidator : Type 0 where
  pub root_pks : HashMap ℕ (List ℕ)
  pub checkpoints : HashMap ℕ Checkpoint
  pub root_sk : List ℕ

unfoldable pub new : List ℕ → OnChainValidator
new root_sk = record { root_pks = []; checkpoints = []; root_sk = root_sk }

unfoldable pub add_root_pk : ℕ → List ℕ → OnChainValidator → OnChainValidator
add_root_pk chat_id pk v = record v { root_pks = insert chat_id pk v.root_pks }

unfoldable pub get_checkpoint : ℕ → OnChainValidator → Option Checkpoint
get_checkpoint chat_id v = get chat_id v.checkpoints

module _ (crypto : Crypto) where
  unfoldable pub sign_checkpoint : ℕ → OnChainValidator → List ℕ
  sign_checkpoint token_count v = crypto.sign v.root_sk (crypto.to_bytes token_count)

  unfoldable pub create_checkpoint :
      ℕ → ℕ → OnChainValidator → Outcome (Checkpoint × OnChainValidator)
  create_checkpoint chat_id token_count v =
      let checkpoint : Checkpoint = record {
        token_count = token_count;
        signature = sign_checkpoint token_count v;
      } in
      let v' = record v { checkpoints = insert chat_id checkpoint v.checkpoints } in
      expect (get chat_id v'.checkpoints) >>= λ created. done (created, v')

  -- A key that is no key and a signature that is not 64 bytes long panic.
  unfoldable pub verify_checkpoint : ℕ → Checkpoint → OnChainValidator → Outcome Bool
  verify_checkpoint chat_id checkpoint v = elim (get chat_id v.root_pks) [
    | none ↦ done false
    | some pk_raw ↦ expect (crypto.from_bytes pk_raw) >>= λ pk.
        if length checkpoint.signature == 64
        then done
            (crypto.verify_strict pk (crypto.to_bytes checkpoint.token_count) checkpoint.signature)
        else panicked
  ]

  -- `false` for `Err`.
  unfoldable pub update_checkpoint :
      ℕ → Checkpoint → OnChainValidator → Outcome (Bool × OnChainValidator)
  update_checkpoint chat_id checkpoint v = verify_checkpoint chat_id checkpoint v >>= λ valid.
      if valid
      then done (true, record v { checkpoints = insert chat_id checkpoint v.checkpoints })
      else done (false, v)
