-- ===== src/Models/Phi3/Passes.antt =====
-- How a chat with the Phi-3 model passes its tokens to the layers, and what it samples behind them:
-- the rounds over the prompt.
use decentralized_llm_infere.Base.{
  ℕ, suc, ◌+◌, ◌^◌, ◌<◌, ◌≡◌, refl, sym, ap, subst, Option-cases, Outcome-cases, inl, inr, Option,
  none, some, List, [], ◌∷◌, ◌++◌, length, length-append, u32, arith, Outcome, done, done-injective,
}
use mathlib.Core.Option.{some-injective}
use mathlib.Core.List.{append_assoc, append-nil}
use decentralized_llm_infere.Models.{
  Text, and_then-eq-some, ChatCfg, Tokenizer, Floats, Candle, Random,
}
use decentralized_llm_infere.Models.RepeatPenalty.{penalize}
use decentralized_llm_infere.Models.Sampling.{LogitsProcessor, sample}
use decentralized_llm_infere.Models.Chat.{Chat}
use decentralized_llm_infere.Models.Chat.Reference.{choose_each, Serves, received}
use decentralized_llm_infere.Models.Phi3.{
  Phi3Model, pre_forward, embed, logits_of, pass_input, pass, sample_next, prompt_rounds,
}
use decentralized_llm_infere.Worker.ModelService.{LayersWorker}

one_token : (t : ℕ) → 0 < length (t ∷ [])
one_token t = omega arith

module _ {T F D R : Type 0} (floats : Floats F D) (candle : Candle T F D) (random : Random F R)
    (cfg : ChatCfg F D) (computes : List ℕ → T) where
  -- A sample of the logits behind some tokens, and one of the penalized logits, where the penalty
  -- reads the answer alone.
  abbrev pub choose_raw : List ℕ → LogitsProcessor D R → Outcome (Option (ℕ × LogitsProcessor D R))
  choose_raw tokens p = sample floats candle random (computes tokens) p

  abbrev pub choose :
      List ℕ → List ℕ → LogitsProcessor D R → Outcome (Option (ℕ × LogitsProcessor D R))
  choose prompt said p = elim (penalize floats candle cfg said (computes (prompt ++ said))) [
    | none ↦ done none
    | some logits ↦ sample floats candle random logits p
  ]

module _ {T F D L R : Type 0} (floats : Floats F D) (candle : Candle T F D) (model : Phi3Model T)
    (random : Random F R) (tokenizer : Tokenizer) (worker : LayersWorker T L) (session : ℕ)
    (cfg : ChatCfg F D) (computes : List ℕ → T) (Holds : List ℕ → L → Type 0)
    (serves : Serves worker session
      (embed floats candle model)
      (λ out seq_len. logits_of floats candle model out)
      computes
      Holds) where
  embed-u32 : (ts : List ℕ) (x : T) (n : ℕ) → embed floats candle model ts ≡ some (x, n) → u32 n ≡ n
  unfolding embed pre_forward
  embed-u32 ts x n h =
      let (input, e, h1) = and_then-eq-some (candle.from_tokens ts) _ h in
      let (input', e', h2) = and_then-eq-some (candle.unsqueeze input) _ h1 in
      let (m, e2, h3) = and_then-eq-some (candle.seq_len input') _ h2 in
      elim (Option-cases (model.tok_embeddings input')) [
        | inl q ↦ absurd (ground (arith, q, h3))
        | inr (y, q) ↦
            let same : u32 m ≡ n =
              ap (λ (z : T × ℕ). z.1) (some-injective (y, u32 m) (x, n) (rw q at h3)) in
            omega (arith, same)
      ]

  pub pass_lem :
      (t step pos : ℕ) (held : List ℕ) (c : Chat L (List Text) D R)
      → Holds held c.layers
      → pos ≡ length held
      → (l : L) × (pass floats candle model random tokenizer worker received session cfg t step pos
            c
          ≡ (some (computes (held ++ t ∷ [])), record c { layers = l }))
        × Holds (held ++ t ∷ []) l
  unfolding pass pass_input
  pass_lem t step pos held c h at =
      let (input, n, out, l, e1, e2, e3, holds) =
        serves.forwards held (t ∷ []) c.layers step h (one_token t) in
      let e : worker.forward session step (input, n) (length held) c.layers ≡ (some out, l) =
        subst (λ m. worker.forward session step (input, m) (length held) c.layers ≡ (some out, l))
          (embed-u32 (t ∷ []) input n e1) e2 in
      (l, rw (e1, at, e, e3) refl, holds)

  pub prompt_rounds_lem :
      (pos : ℕ) (ts : List ℕ) (next : ℕ) (held : List ℕ) (c : Chat L (List Text) D R)
      → Holds held c.layers
      → pos ≡ length held
      → length held + length ts < 2 ^ 32
      → (first : ℕ) (p : LogitsProcessor D R)
      → choose_each (choose_raw floats candle random cfg computes) held ts next c.logits_processor
        ≡ done (some (first, p))
      → (l : L) × (prompt_rounds floats candle model random tokenizer worker received session cfg
            pos ts next c
          ≡ done (some first, record c { layers = l; logits_processor = p }))
        × Holds (held ++ ts) l
  unfolding prompt_rounds sample_next choose_each
  prompt_rounds_lem pos [] next held c h at small first p chosen =
      let e : (next, c.logits_processor) ≡ (first, p) =
        some-injective _ _ (done-injective chosen) in
      (
        c.layers,
        ap (λ (z : ℕ × LogitsProcessor D R). done (some z.0, record c { logits_processor = z.1 }))
            e,
        subst (λ ts. Holds ts c.layers) (sym (append-nil held)) h,
      )
  prompt_rounds_lem pos (t ∷ ts) next held c h at small first p chosen =
      let (l, e, holds) = pass_lem t 0 (u32 pos) held c h (omega arith) in
      elim (Outcome-cases
        (choose_raw floats candle random cfg computes (held ++ t ∷ []) c.logits_processor)) [
          | inl q ↦ absurd (ground (arith, q, chosen))
          | inr (none, q) ↦ absurd (ground (arith, q, chosen))
          | inr (some (n, p'), q) ↦
              let (l', run, holds') =
                prompt_rounds_lem (suc pos) ts n (held ++ t ∷ [])
                  (record c { layers = l; logits_processor = p' }) holds
                  (omega (arith, length-append held (t ∷ [])))
                  (omega (arith, length-append held (t ∷ []))) first p (rw q at chosen) in
              (l', rw (e, q, run), subst (λ ts. Holds ts l') (append_assoc held (t ∷ []) ts) holds')
        ]
