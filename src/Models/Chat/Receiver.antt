-- ===== src/Models/Chat/Receiver.antt =====
-- The stream of a chat whose receiver stays.
use decentralized_llm_infere.Base.{
  ℕ, ◌≡◌, refl, sym, ap, subst, ◌∙◌, Option, none, some, List, [], ◌∷◌, ◌++◌, done,
}
use decentralized_llm_infere.Base.Slices.{flatten-append}
use mathlib.Core.List.{flatten, append-nil}
use decentralized_llm_infere.Models.{Text, Tokenizer}
use decentralized_llm_infere.Models.TokenOutputStream.{TokenOutputStream, pushed, decode_rest}
use decentralized_llm_infere.Models.TokenOutputStream.Streaming.{
  Decodes, Streams, next_token_lem, decode_rest_lem,
}
use decentralized_llm_infere.Models.Chat.{Chat, continues, send_text, stream_token, send_rest}
use decentralized_llm_infere.Models.Chat.Reference.{received}

module _ {L D R : Type 0} where
  send_text-received :
      (o : Option Text) (c : Chat L (List Text) D R)
      → send_text received o c ≡ (continues, record c { tx = c.tx ++ pushed o [] })
  unfolding send_text
  send_text-received none c = ap (λ q. (continues, record c { tx = q })) (sym (append-nil c.tx))
  send_text-received (some t) c = refl

  send_rest-received :
      (o : Option Text) (c : Chat L (List Text) D R)
      → send_rest received o c ≡ record c { tx = c.tx ++ pushed o [] }
  unfolding send_rest
  send_rest-received none c = ap (λ q. record c { tx = q }) (sym (append-nil c.tx))
  send_rest-received (some t) c = refl

  module _ (tokenizer : Tokenizer) (text : List ℕ → Text) (decodes : Decodes tokenizer text) where
    -- A token goes through the stream, and the account of the texts that were sent is kept.
    pub stream_token-received :
        (t : ℕ) (c : Chat L (List Text) D R)
        → Streams tokenizer text decodes c.stream (flatten c.tx)
        → (s : TokenOutputStream) × (tx : List Text) × (stream_token received tokenizer t c
            ≡ done (continues, record c { stream = s; tx = tx }))
          × (s.tokens ≡ c.stream.tokens ++ t ∷ [])
          × Streams tokenizer text decodes s (flatten tx)
    unfolding stream_token
    stream_token-received t c v =
        let (o, s, e, held, v') =
          next_token_lem tokenizer text decodes t c.stream (flatten c.tx) v in
        (
          s,
          c.tx ++ pushed o [],
          rw (e, send_text-received o (record c { stream = s })) refl,
          held,
          subst (Streams tokenizer text decodes s) (sym (flatten-append c.tx (pushed o []))) v',
        )

    -- What is sent at the end completes the text.
    pub send_rest_lem :
        (c : Chat L (List Text) D R)
        → Streams tokenizer text decodes c.stream (flatten c.tx)
        → (o : Option Text) × (tx : List Text) × (decode_rest tokenizer c.stream ≡ done (some o))
          × (send_rest received o c ≡ record c { tx = tx })
          × (flatten tx ≡ text c.stream.tokens)
    send_rest_lem c v =
        let (o, e, whole) = decode_rest_lem tokenizer text decodes c.stream (flatten c.tx) v in
        (
          o,
          c.tx ++ pushed o [],
          e,
          send_rest-received o c,
          flatten-append c.tx (pushed o []) ∙ whole,
        )
