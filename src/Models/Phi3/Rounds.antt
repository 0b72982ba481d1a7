-- ===== src/Models/Phi3/Rounds.antt =====
-- The rounds of a chat with the Phi-3 model behind its prompt: each one says the next token that the
-- model chooses.
use decentralized_llm_infere.Base.{
  ℕ, zero, suc, ◌+◌, ◌^◌, ◌<◌, ◌≡◌, refl, sym, ap, subst, ◌∙◌, true, Bool-cases, Outcome-cases, inl,
  inr, Option, none, some, List, [], ◌∷◌, ◌++◌, length, length-append, ◌==◌, u32, arith, Outcome,
  done, done-injective,
}
use mathlib.Core.Option.{some-injective}
use mathlib.Core.List.{flatten, append_assoc, append-nil}
use decentralized_llm_infere.Models.{Text, ChatCfg, Tokenizer, Floats, Candle, Random}
use decentralized_llm_infere.Models.Sampling.{LogitsProcessor, sample}
use decentralized_llm_infere.Models.TokenOutputStream as TokenOutputStream
use decentralized_llm_infere.Models.TokenOutputStream.{pushed, next_token, decode_rest}
use decentralized_llm_infere.Models.TokenOutputStream.Streaming.{Decodes, Streams}
use decentralized_llm_infere.Models.Chat.{Chat, continues}
use decentralized_llm_infere.Models.Chat.Reference.{
  generate_through, more-eq-done, Serves, received,
}
use decentralized_llm_infere.Models.Chat.Receiver.{stream_token-received}
use decentralized_llm_infere.Models.Phi3.{
  Phi3Model, embed, logits_of, sample_next, on_token, round, rounds, unless_eos,
}
use decentralized_llm_infere.Worker.ModelService.{LayersWorker}
use decentralized_llm_infere.Models.Phi3.Passes.{choose, pass_lem}

module _ {T F D L R : Type 0} (floats : Floats F D) (candle : Candle T F D) (model : Phi3Model T)
    (random : Random F R) (tokenizer : Tokenizer) (text : List ℕ → Text)
    (decodes : Decodes tokenizer text) (worker : LayersWorker T L) (session : ℕ) (cfg : ChatCfg F D)
    (computes : List ℕ → T) (Holds : List ℕ → L → Type 0)
    (serves : Serves worker session
      (embed floats candle model)
      (λ out seq_len. logits_of floats candle model out)
      computes
      Holds) where
  -- A chat in front of round `index` of the second loop: the layers got the prompt and what was
  -- said so far, but for the last token.
  pub record Ready (prompt said : List ℕ) (next index : ℕ) (c : Chat L (List Text) D R)
      : Type 0 where
    pub tokens : c.tokens ≡ said ++ next ∷ []
    pub holds : Holds (prompt ++ said) c.layers
    pub at : length said ≡ index
    pub streams : Streams tokenizer text decodes c.stream (flatten c.tx)

  choose_inv :
      (logits : Option T) (c : Chat L (List Text) D R) (t : ℕ) (p : LogitsProcessor D R)
      → (elim logits as (λ _. Outcome (Option (ℕ × LogitsProcessor D R))) [
        | none ↦ done none
        | some l ↦ sample floats candle random l c.logits_processor
      ])
        ≡ done (some (t, p))
      → sample_next floats candle model random tokenizer worker received session cfg logits c
        ≡ done (some t, record c { logits_processor = p })
  unfolding sample_next
  choose_inv none c t p h = absurd (ground arith)
  choose_inv (some l) c t p h = rw h

  round_step :
      (prompt said : List ℕ) (eos next index : ℕ) (c : Chat L (List Text) D R)
      → Ready prompt said next index c
      → length prompt + length said < 2 ^ 32
      → (t : ℕ) (p : LogitsProcessor D R)
      → choose floats candle random cfg computes prompt c.tokens c.logits_processor
        ≡ done (some (t, p))
      → (l : L) × (s : TokenOutputStream.TokenOutputStream) × (tx : List Text) × (round floats
            candle model random tokenizer worker received session cfg eos
            (length prompt)
            index
            next
            c
          ≡ done (
            unless_eos (t == eos) continues,
            t,
            record c {
              layers = l;
              logits_processor = p;
              tokens = c.tokens ++ t ∷ [];
              stream = s;
              tx = tx;
            },
          ))
        × (s.tokens ≡ c.stream.tokens ++ t ∷ [])
        × Streams tokenizer text decodes s (flatten tx)
        × Holds (prompt ++ c.tokens) l
  unfolding round on_token
  round_step prompt said eos next index c r small t p chosen =
      let (l, e, holds) =
        pass_lem floats candle model random tokenizer worker session cfg computes Holds serves next
          (u32 (index + 1)) (u32 (u32 (length prompt) + index)) (prompt ++ said) c r.holds
          (omega (arith, length-append prompt said, r.at)) in
      let all : (prompt ++ said) ++ next ∷ [] ≡ prompt ++ c.tokens =
        append_assoc prompt said (next ∷ []) ∙ ap (λ ts. prompt ++ ts) (sym r.tokens) in
      let sampled = choose_inv _ (record c { layers = l }) t p chosen in
      let (s, tx, sent, told, streams) =
        stream_token-received tokenizer text decodes t
          (record c { layers = l; logits_processor = p; tokens = c.tokens ++ t ∷ [] }) r.streams in
      (l, s, tx, rw (e, all, sampled, sent) refl, told, streams, subst (λ ts. Holds ts l) all holds)

  pub rounds_lem :
      (n : ℕ) (prompt said : List ℕ) (eos next index : ℕ) (c : Chat L (List Text) D R)
      (out : List ℕ)
      → Ready prompt said next index c
      → length prompt + length said + n < 2 ^ 32
      → generate_through
          (choose floats candle random cfg computes prompt)
          (λ t. t == eos)
          n
          c.tokens
          c.logits_processor
        ≡ done (some out)
      → (c' : Chat L (List Text) D R) × (rounds floats candle model random tokenizer worker received
            session cfg n eos
            (length prompt)
            index
            next
            c
          ≡ done (true, c'))
        × (c'.stream.tokens ≡ c.stream.tokens ++ out)
        × Streams tokenizer text decodes c'.stream (flatten c'.tx)
  unfolding rounds generate_through unless_eos
  rounds_lem zero prompt said eos next index c out r small h =
      let e : [] ≡ out = some-injective _ _ (done-injective h) in
      (c, refl, sym (append-nil c.stream.tokens) ∙ ap (λ o. c.stream.tokens ++ o) e, r.streams)
  rounds_lem (suc n) prompt said eos next index c out r small h =
      elim (Outcome-cases
        (choose floats candle random cfg computes prompt c.tokens c.logits_processor)) [
          | inl q ↦ absurd (ground (arith, q, h))
          | inr (none, q) ↦ absurd (ground (arith, q, h))
          | inr (some (t, p), q) ↦
              let (l, s, tx, step, told, streams, holds) =
                round_step prompt said eos next index c r (omega arith) t p q in
              let c1 : Chat L (List Text) D R = record c {
                layers = l;
                logits_processor = p;
                tokens = c.tokens ++ t ∷ [];
                stream = s;
                tx = tx;
              } in
              elim (Bool-cases (t == eos)) [
                | inl last ↦
                    let e : t ∷ [] ≡ out =
                      some-injective _ _ (done-injective (rw (q, last) at h)) in
                    (c1, rw (step, last) refl, told ∙ ap (λ o. c.stream.tokens ++ o) e, streams)
                | inr more ↦
                    let (rest, e, whole) = more-eq-done _ t (rw (q, more) at h) in
                    let (c', run, told', streams') =
                      rounds_lem n prompt c.tokens eos t (suc index) c1 rest
                        (record {
                          tokens = refl;
                          holds = holds;
                          at =
                              omega
                                (arith, ap length r.tokens, length-append said (next ∷ []), r.at);
                          streams = streams;
                        })
                        (omega (arith, ap length r.tokens, length-append said (next ∷ []))) e in
                    (
                      c',
                      rw (step, more, run),
                      told'
                          ∙ ap (λ ts. ts ++ rest) told
                          ∙ append_assoc c.stream.tokens (t ∷ []) rest
                          ∙ ap (λ o. c.stream.tokens ++ o) whole,
                      streams',
                    )
              ]
        ]
