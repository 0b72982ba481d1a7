-- ===== src/Tests/Contract.antt =====
-- A root and a worker, with a toy signature and a toy encoding: the theorems on crates/contract at
-- concrete inputs.
use decentralized_llm_infere.Base.{
  ℕ, ◌+◌, ◌≡◌, ◌<◌, ◌^◌, ◌⊎◌, refl, true, Option, none, some, List, [], ◌∷◌, ◌++◌, length, HashMap,
  ℕ_discrete, replicate, arith, get, nat_key, done, ◌==◌, ◌>>=◌,
}
use decentralized_llm_infere.Tests.Packing.{pack, unpack, unpack-pack}
use decentralized_llm_infere.Protocol.Llm.{StartRes, ForwardReq, EndReq, EndRes}
use decentralized_llm_infere.Contract.Storage.{get_count}
use decentralized_llm_infere.Contract.Validator.{
  Crypto, Checkpoint, get_checkpoint, sign_checkpoint,
}
use decentralized_llm_infere.Contract.Service.{
  OnChainService, OnChainServiceMetadata, Chain, claim_tokens, pre_forward, post_end,
}
use decentralized_llm_infere.Contract.Earning.{
  IsSigned, paid, accept, pre_forward-IsSigned, pre_forward_twice,
}
use decentralized_llm_infere.Contract.Rounds.{rounds, Trusts, rounds-post_end}
use decentralized_llm_infere.Contract.Layers.{Joining, go_home, total, post_start-total}

unfoldable first : List ℕ → ℕ
first [] = 0
first (b ∷ bytes) = b

-- A signature is the signed number, and zeros up to 64 bytes.
abbrev crypto : Crypto
crypto = record {
  sign = λ sk msg. msg ++ replicate 63 0;
  from_bytes = λ pk. some pk;
  verify_strict = λ key msg signature. first signature == first msg;
  to_bytes = λ n. n ∷ [];
}

unfoldable checkpoint_bytes : Option Checkpoint → List ℕ
checkpoint_bytes none = []
checkpoint_bytes (some c) = c.token_count ∷ c.signature

unfoldable read_checkpoint : List ℕ → Option Checkpoint
read_checkpoint [] = none
read_checkpoint (n ∷ signature) = some (record { token_count = n; signature = signature })

unfoldable write_metadata : OnChainServiceMetadata → List ℕ
write_metadata m =
    m.root_address
    ∷ pack m.addresses (pack m.root_pk (pack m.layers (checkpoint_bytes m.checkpoint)))

unfoldable read_metadata : List ℕ → Option OnChainServiceMetadata
read_metadata [] = none
read_metadata (root_address ∷ bytes) = elim (unpack bytes) [
  | none ↦ none
  | some (addresses, bytes1) ↦ elim (unpack bytes1) [
    | none ↦ none
    | some (root_pk, bytes2) ↦ elim (unpack bytes2) [
      | none ↦ none
      | some (layers, bytes3) ↦ some (record {
        addresses = addresses;
        root_address = root_address;
        root_pk = root_pk;
        layers = layers;
        checkpoint = read_checkpoint bytes3;
      })
    ]
  ]
]

read-write_checkpoint : (c : Option Checkpoint) → read_checkpoint (checkpoint_bytes c) ≡ c
unfolding read_checkpoint checkpoint_bytes
read-write_checkpoint none = refl
read-write_checkpoint (some c) = refl

read-write_metadata : (m : OnChainServiceMetadata) → read_metadata (write_metadata m) ≡ some m
unfolding read_metadata write_metadata
read-write_metadata m =
    rw
      (
        read_metadata,
        unpack-pack m.addresses (pack m.root_pk (pack m.layers (checkpoint_bytes m.checkpoint))),
        unpack-pack m.root_pk (pack m.layers (checkpoint_bytes m.checkpoint)),
        unpack-pack m.layers (checkpoint_bytes m.checkpoint),
        read-write_checkpoint m.checkpoint,
      )
      refl

abbrev chain_at : ℕ → Chain
chain_at address = record {
  serialize = write_metadata;
  deserialize = read_metadata;
  address = address;
  public_key = 5 ∷ [];
  accepts = λ call. true;
}

abbrev node : List ℕ → HashMap ℕ (List ℕ) → OnChainService
node secret keys = record {
  earning = [];
  spending = [];
  layers_start = 0;
  layers_end = 4;
  validator = record { root_pks = keys; checkpoints = []; root_sk = secret };
  calls = [];
}

abbrev root : OnChainService
root = node (5 ∷ []) []

-- It has the root's key for chat 3.
abbrev worker : OnChainService
worker = node (6 ∷ []) ((3, 5 ∷ []) ∷ [])

abbrev token : ForwardReq
token = record {
  session = 3;
  step = 0;
  embedding = [];
  index_pos = 0;
  seq_len = 1;
  metadata = [];
  chain_index = 0;
}

abbrev closing : EndReq
closing = record { session = 3; metadata = []; chain_index = 1 }

abbrev told : OnChainServiceMetadata
told = record { addresses = []; root_address = 1; root_pk = 5 ∷ []; layers = []; checkpoint = none }

abbrev closed : EndRes
closed = record { success = true; metadata = write_metadata told }

worker-Trusts : Trusts crypto (chain_at 1) (chain_at 2) 3 (root, worker)
unfolding get first ℕ_discrete sign_checkpoint
worker-Trusts n = (5 ∷ [], 5 ∷ [], refl, refl, refl, ground arith)

no-spending : get_count 3 root.spending ≡ 0
unfolding get_count get
no-spending = refl

no-earning : get_count 3 worker.earning ≡ 0
unfolding get_count get
no-earning = refl

rounds-post_end_example :
    (root' : OnChainService) × (worker' : OnChainService) × (ended : OnChainService) × (rounds
        crypto
        (chain_at 1)
        (chain_at 2)
        3
        (token ∷ token ∷ [])
        (root, worker)
      ≡ done (root', worker'))
    × (get_count 3 root'.spending ≡ 2)
    × (post_end crypto (chain_at 2) 3 closing closed worker' ≡ done (closed, ended))
    × (ended.calls ≡ claim_tokens 1 3 2 (2 ∷ replicate 63 0) ∷ [])
rounds-post_end_example =
    rounds-post_end crypto (chain_at 1) (chain_at 2) read-write_metadata 3 (token ∷ token ∷ []) root
      worker closing closed told (omega arith) (omega arith) worker-Trusts no-spending no-earning
      (λ e. omega arith) (read-write_metadata told)

-- The checkpoint of one token, as the root signs it.
abbrev signed : Checkpoint
signed = record { token_count = 1; signature = 1 ∷ replicate 63 0 }

abbrev paying : OnChainServiceMetadata
paying = record told { checkpoint = some signed }

abbrev payment : ForwardReq
payment = record token { chain_index = 1; metadata = write_metadata paying }

signed-IsSigned : IsSigned crypto 3 signed worker
unfolding get first ℕ_discrete
signed-IsSigned = (5 ∷ [], 5 ∷ [], refl, refl, refl, refl)

few_tokens : get_count 3 worker.earning + 2 < 2 ^ 64
few_tokens = rw no-earning (omega arith)

pre_forward_twice_example :
    (twice : OnChainService) × ((pre_forward crypto (chain_at 2) 3 payment worker >>= λ once.
    pre_forward crypto (chain_at 2) 3 payment once.1)
      ≡ done (some payment, twice))
    × (get_count 3 twice.earning ≡ get_count 3 worker.earning + 2)
    × (get_checkpoint 3 twice.validator ≡ some signed)
pre_forward_twice_example =
    pre_forward_twice crypto (chain_at 2) 3 payment paying signed worker (λ e. omega arith)
      (read-write_metadata paying) refl signed-IsSigned few_tokens

payment_taken :
    pre_forward crypto (chain_at 2) 3 payment worker
    ≡ done (some payment, paid crypto 3 signed worker)
payment_taken =
    accept crypto (chain_at 2) 3 payment paying signed worker (λ e. omega arith)
      (read-write_metadata paying) refl signed-IsSigned

pre_forward-IsSigned_example :
    ((some payment ≡ none) × (paid crypto 3 signed worker ≡ worker))
    ⊎ ((m : OnChainServiceMetadata) × (c : Checkpoint) × (read_metadata payment.metadata ≡ some m)
        × (m.checkpoint ≡ some c)
        × IsSigned crypto 3 c worker
        × (some payment ≡ some payment)
        × (paid crypto 3 signed worker ≡ paid crypto 3 c worker))
pre_forward-IsSigned_example =
    pre_forward-IsSigned crypto (chain_at 2) 3 payment worker (paid crypto 3 signed worker)
      (some payment) (λ e. omega arith) payment_taken

abbrev join : (from to address : ℕ) → Joining
join from to address = record {
  req = record {
    session = 3;
    chat_id = 3;
    from_layer = from;
    metadata = [];
    chain_index = 1;
    max_tokens = 100;
  };
  worker = record worker { layers_start = from; layers_end = to };
  address = address;
}

abbrev opened : StartRes
opened = record { success = true; metadata = write_metadata told }

-- Two workers share 16 layers, and 18 are written down.
post_start-total_example :
    (res' : StartRes) × (m' : OnChainServiceMetadata) × (go_home crypto chain_at
        (join 0 8 2 ∷ join 8 16 4 ∷ [])
        opened
      ≡ done res')
    × (res'.success ≡ true)
    × ((a : ℕ) → read_metadata res'.metadata ≡ some m')
    × (m'.addresses ≡ 4 ∷ 2 ∷ [])
    × (length m'.layers ≡ 2)
    × (total m'.layers + 0 ≡ 18)
    × (m'.root_address ≡ 1)
post_start-total_example =
    post_start-total crypto chain_at (λ a b m. read-write_metadata m) (λ a. refl)
      (join 0 8 2 ∷ join 8 16 4 ∷ []) 0 16 opened told
      (
        refl,
        omega arith,
        omega arith,
        λ e. omega arith,
        (refl, omega arith, omega arith, λ e. omega arith, refl),
      )
      (λ a. read-write_metadata told)
