-- ===== src/Models/TokenOutputStream.antt =====
-- crates/models/src/token_output_stream.rs: generated tokens as text, handed out as soon as it is
-- complete.
pub mod Decoding
pub mod Streaming
pub mod Texts
use decentralized_llm_infere.Base.{
  ℕ, zero, suc, ◌+◌, ◌-◌, ◌≤◌, ◌≡◌, Bool, true, false, Option, none, some, List, [], ◌∷◌, ◌++◌,
  length, take, drop, ltb, leb, ◌==◌, ◌&&◌, if◌then◌else◌, Outcome, done, panicked, expect, ◌>>=◌,
}
use mathlib.Core.Option
use decentralized_llm_infere.Models.{Text, text_len, split_at, last, Tokenizer}

pub record TokenOutputStream : Type 0 where
  pub tokens : List ℕ
  pub prev_index : ℕ
  pub current_index : ℕ

unfoldable pub new : TokenOutputStream
new = record { tokens = []; prev_index = 0; current_index = 0 }

-- `&tokens[from..to]`
unfoldable pub slice : List ℕ → ℕ → ℕ → Outcome (List ℕ)
slice ts from to =
    if leb from to && leb to (length ts) then done (drop from (take to ts)) else panicked

unfoldable pub clear : TokenOutputStream → TokenOutputStream
clear s = new

abbrev pub pushed : Option Text → List Text → List Text
pushed none ts = ts
pushed (some t) ts = t ∷ ts

-- A text that goes on behind an earlier one is handed out where it does.
unfoldable pub rest_of : Text → Text → Outcome (Option Text)
rest_of prev text =
    if ltb (text_len prev) (text_len text)
    then (split_at (text_len prev) text >>= λ parts. done (some parts.1))
    else done none

module _ (tokenizer : Tokenizer) where
  -- The text between the two marks, or an error of the tokenizer.
  unfoldable pub prev_text : TokenOutputStream → Outcome (Option Text)
  prev_text s =
      if length s.tokens == 0
      then done (some [])
      else (slice s.tokens s.prev_index s.current_index >>= λ ts. done (tokenizer.decode ts))

  -- The last part of `next_token`, where `text` is the text from the first mark on.
  unfoldable pub emit : Text → Text → TokenOutputStream → Outcome (Option Text × TokenOutputStream)
  emit prev text s =
      if ltb (text_len prev) (text_len text)
      then (expect (last text) >>= λ c.
          if tokenizer.is_alphanumeric c
          then (split_at (text_len prev) text >>= λ parts. done (
            some parts.1,
            record s { prev_index = s.current_index; current_index = length s.tokens },
          ))
          else done (none, s))
      else done (none, s)

  -- The text that the token completes, if it does; `none` outside for `Err`.
  unfoldable pub next_token :
      ℕ → TokenOutputStream → Outcome (Option (Option Text) × TokenOutputStream)
  next_token token s = prev_text s >>= λ prev. elim prev [
    | none ↦ done (none, s)
    | some prev ↦
        let s = record s { tokens = s.tokens ++ token ∷ [] } in
        slice s.tokens s.prev_index (length s.tokens) >>= λ ts. elim (tokenizer.decode ts) [
          | none ↦ done (none, s)
          | some text ↦ emit prev text s >>= λ r. done (some r.0, r.1)
        ]
  ]

  unfoldable pub decode_rest : TokenOutputStream → Outcome (Option (Option Text))
  decode_rest s = prev_text s >>= λ prev. elim prev [
    | none ↦ done none
    | some prev ↦ slice s.tokens s.prev_index (length s.tokens) >>= λ ts.
        elim (tokenizer.decode ts) [
          | none ↦ done none
          | some text ↦ rest_of prev text >>= λ r. done (some r)
        ]
  ]

  unfoldable pub decode_all : TokenOutputStream → Option Text
  decode_all s = tokenizer.decode s.tokens

  -- `next_token` for one token after the other, with the texts that were handed out. An error of the
  -- tokenizer ends it.
  unfoldable pub stream :
      List ℕ → TokenOutputStream → Outcome (Option (List Text × TokenOutputStream))
  stream [] s = done (some ([], s))
  stream (t ∷ ts) s = next_token t s >>= λ r. elim r.0 [
    | none ↦ done none
    | some out ↦ stream ts r.1 >>= λ rest. done (Option.map (λ p. (pushed out p.0, p.1)) rest)
  ]
