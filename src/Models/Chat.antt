-- ===== src/Models/Chat.antt =====
-- What the chats of crates/models/src/llama/mod.rs and crates/models/src/phi3/mod.rs share: the
-- state of the loop, and how a token is handed to the one who asked.
pub mod Reference
pub mod Receiver
use decentralized_llm_infere.Base.{
  ℕ, ◌+◌, Bool, true, false, Option, none, some, List, [], ◌∷◌, ◌++◌, if◌then◌else◌, Outcome, done,
  ◌>>=◌,
}
use decentralized_llm_infere.Models.{Text, Tokenizer}
use decentralized_llm_infere.Models.TokenOutputStream.{TokenOutputStream, next_token}
use decentralized_llm_infere.Models.Sampling.{LogitsProcessor}

-- The local variables of `chat`, with the layers' worker and the channel to the one who asked.
pub record Chat (L Q D R : Type 0) : Type 0 where
  pub layers : L
  pub tx : Q
  pub stream : TokenOutputStream
  pub tokens : List ℕ
  pub index_pos : ℕ
  pub logits_processor : LogitsProcessor D R
  pub token_generated : ℕ

-- How one round of a loop ends: it goes on, it breaks, or `?` returns an error.
pub data Flow : Type 0 where
  continues breaks fails : Flow

module _ {L Q D R : Type 0} (send : Text → Q → Bool × Q) where
  -- `tx.send(t)`, whose failure ends the loop.
  unfoldable pub send_text : Option Text → Chat L Q D R → Flow × Chat L Q D R
  send_text none c = (continues, c)
  send_text (some t) c =
      let (ok, tx) = send t c.tx in (if ok then continues else breaks, record c { tx = tx })

  -- What is left in the stream; a failure to send it is only logged.
  unfoldable pub send_rest : Option Text → Chat L Q D R → Chat L Q D R
  send_rest none c = c
  send_rest (some t) c = record c { tx = (send t c.tx).1 }

  -- `if let Some(t) = tokenizer.next_token(next_token)?`
  unfoldable pub stream_token : Tokenizer → ℕ → Chat L Q D R → Outcome (Flow × Chat L Q D R)
  stream_token tokenizer token c = next_token tokenizer token c.stream >>= λ r.
      let c = record c { stream = r.1 } in
      elim r.0 [ none ↦ done (fails, c) | some out ↦ done (send_text out c) ]
