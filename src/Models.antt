-- ===== src/Models.antt =====
-- What the chat models of crates/models share: text, the operations of candle, of the tokenizer and
-- on floats that they call, and the configuration of a chat (crates/protocol/src/model.rs).
pub mod Chat
pub mod LayersCache
pub mod Llama
pub mod Phi3
pub mod Prompt
pub mod RepeatPenalty
pub mod Sampling
pub mod Sessions
pub mod TokenOutputStream
use decentralized_llm_infere.Base.{
  ℕ, ◌+◌, ◌-◌, Bool, Option, none, some, List, [], ◌∷◌, ◌++◌, String, ltb, leb, ◌≡◌, refl,
  if◌then◌else◌, Outcome, done, panicked, ◌>>=◌,
}
use Prim.Native.Char.{code}
use Prim.Native.String
use mathlib.Core.Option

-- A `String` or `&str`, by its characters.
abbrev pub Text : Type 0
Text = List ℕ

-- A literal.
abbrev pub chars : String → Text
chars String.[] = []
chars (String.◌∷◌ c s) = code c ∷ chars s

-- `char::len_utf8`
abbrev pub len_utf8 : ℕ → ℕ
len_utf8 c = if ltb c 0x80 then 1 else if ltb c 0x800 then 2 else if ltb c 0x10000 then 3 else 4

-- `str::len`: the number of bytes.
unfoldable pub text_len : Text → ℕ
text_len [] = 0
text_len (c ∷ t) = len_utf8 c + text_len t

-- `str::split_at`: it panics where the index is not between two characters.
unfoldable pub split_at : ℕ → Text → Outcome (Text × Text)
split_at mid [] = if ltb 0 mid then panicked else done ([], [])
split_at mid (c ∷ t) =
    let rest = split_at (mid - len_utf8 c) t >>= λ p. done (c ∷ p.0, p.1) in
    if leb mid 0 then done ([], c ∷ t) else if ltb mid (len_utf8 c) then panicked else rest

-- `text.chars().last()`
unfoldable pub last : Text → Option ℕ
last [] = none
last (c ∷ []) = some c
last (c ∷ d ∷ t) = last (d ∷ t)

-- The `?` operator on a `Result`.
abbrev pub and_then {ℓ κ} : {A : Type ℓ} {B : Type κ} → Option A → (A → Option B) → Option B
and_then none f = none
and_then (some a) f = f a

pub and_then-eq-some {ℓ κ} :
    {A : Type ℓ} {B : Type κ} (o : Option A) (f : A → Option B) {b : B}
    → and_then o f ≡ some b
    → (a : A) × (o ≡ some a) × (f a ≡ some b)
and_then-eq-some none f h = cc
and_then-eq-some (some a) f h = (a, refl, h)

-- `protocol::ChatCfg`, with `F` for `f32` and `D` for `f64`.
pub record ChatCfg (F D : Type 0) : Type 0 where
  pub seed : ℕ
  pub temperature : D
  pub top_k : Option ℕ
  pub top_p : Option D
  pub max_len : ℕ
  pub repeat_penalty : F
  pub repeat_last_n : ℕ

-- What the code uses of `tokenizers::Tokenizer`, and of the tables of Unicode.
pub record Tokenizer : Type 0 where
  pub encode : Text → Option (List ℕ)
  pub decode : List ℕ → Option Text
  pub token_to_id : Text → Option ℕ
  -- `get_vocab(true).get(token)`
  pub get_vocab : Text → Option ℕ
  pub is_alphanumeric : ℕ → Bool

-- What the code uses of `f32` (`F`) and `f64` (`D`).
pub record Floats (F D : Type 0) : Type 0 where
  pub zero : F
  pub add : F → F → F
  pub mul : F → F → F
  pub div : F → F → F
  -- `a <= b`
  pub le : F → F → Bool
  -- `a == 1.`
  pub is_one : F → Bool
  -- `a.total_cmp(&b)` is not `Greater`
  pub total_le : F → F → Bool
  -- `a <= 0.` and `a >= 1.`
  pub d_le_zero : D → Bool
  pub d_ge_one : D → Bool
  pub to_f32 : D → F

-- What the code uses of candle. A device and a type of numbers have no influence.
pub record Candle (T F D : Type 0) : Type 0 where
  -- `Tensor::new(tokens, device)`
  pub from_tokens : List ℕ → Option T
  pub unsqueeze : T → Option T
  pub squeeze : T → Option T
  -- the second part of `dims2`
  pub seq_len : T → Option ℕ
  -- `i((.., k, ..))`
  pub index_row : ℕ → T → Option T
  pub contiguous : T → Option T
  pub to_f32 : T → Option T
  pub to_vec1 : T → Option (List F)
  pub from_vec : List F → Option T
  -- `&logits / temperature`
  pub div : T → D → Option T
  pub softmax_last_dim : T → Option T

-- What the code uses of `rand` with a generator `R`, and `select_nth_unstable_by`, whose order is not
-- specified.
pub record Random (F R : Type 0) : Type 0 where
  pub seed_from_u64 : ℕ → R
  -- `WeightedIndex::new(prs)` and a sample of it
  pub weighted_index : List F → R → Option (ℕ × R)
  -- the positions of the `k` largest
  pub select_nth : ℕ → List F → List ℕ
