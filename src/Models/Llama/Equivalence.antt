-- ===== src/Models/Llama/Equivalence.antt =====
-- A chat with a Llama model says what the model says without a cache.
use decentralized_llm_infere.Base.{
  ℕ, zero, suc, ◌+◌, ◌-◌, ◌^◌, ◌<◌, ◌≡◌, ◌⊎◌, refl, sym, ap, subst, ◌∙◌, Bool, true, false,
  Bool-cases, Outcome-cases, inl, inr, Option, none, some, List, [], ◌∷◌, ◌++◌, length,
  length-append, drop, ltb, if◌then◌else◌, u32, arith, Outcome, done, done-injective,
}
use mathlib.Core.Option.{some-injective}
use mathlib.Core.List.{flatten, append_assoc, append-nil}
use decentralized_llm_infere.Models.{Text, chars, ChatCfg, Tokenizer, Floats, Candle, Random}
use decentralized_llm_infere.Models.RepeatPenalty.{penalize}
use decentralized_llm_infere.Models.Sampling.{LogitsProcessor, sample, from_cfg}
use decentralized_llm_infere.Models.TokenOutputStream as TokenOutputStream
use decentralized_llm_infere.Models.TokenOutputStream.{pushed, next_token, decode_rest}
use decentralized_llm_infere.Models.TokenOutputStream.Streaming.{Decodes, Streams, new-Streams}
use decentralized_llm_infere.Models.Chat.{Chat}
use decentralized_llm_infere.Models.Chat.Reference.{generate, more-eq-done, Serves, received}
use decentralized_llm_infere.Models.Chat.Receiver.{stream_token-received, send_rest_lem}
use decentralized_llm_infere.Models.Llama.{
  LlamaModel, is_eos, or_eos, embed, logits_of, forward_ctxt, on_answer, on_logits, on_token, round,
  rounds, finish, chat,
}
use decentralized_llm_infere.Worker.ModelService.{LayersWorker}

drop-length {ℓ} : {A : Type ℓ} (xs ys : List A) → drop (length xs) (xs ++ ys) ≡ ys
drop-length [] ys = refl
drop-length (x ∷ xs) ys = drop-length xs ys

module _ {T F D L R : Type 0} (floats : Floats F D) (candle : Candle T F D) (model : LlamaModel T)
    (random : Random F R) (tokenizer : Tokenizer) (text : List ℕ → Text)
    (decodes : Decodes tokenizer text) (worker : LayersWorker T L) (session : ℕ) (cfg : ChatCfg F D)
    (computes : List ℕ → T) (Holds : List ℕ → L → Type 0)
    (serves : Serves worker session
      (embed floats candle model)
      (λ out seq_len. logits_of floats candle model out.0 seq_len)
      computes
      Holds) where
  -- The next token behind some: a sample of the penalized logits.
  abbrev pub choose : List ℕ → LogitsProcessor D R → Outcome (Option (ℕ × LogitsProcessor D R))
  choose tokens p = elim (penalize floats candle cfg tokens (computes tokens)) [
    | none ↦ done none
    | some logits ↦ sample floats candle random logits p
  ]

  abbrev pub ends : ℕ → Bool
  ends = is_eos (or_eos model.eos_token_id (tokenizer.token_to_id (chars "</s>")))

  -- A chat in front of round `index`: the layers got `held`, and the round is to pass `ctxt` on.
  record Ready (index : ℕ) (held ctxt : List ℕ) (c : Chat L (List Text) D R) : Type 0 where
    tokens : c.tokens ≡ held ++ ctxt
    holds : Holds held c.layers
    at : c.index_pos ≡ length held
    context : (index ≡ 0) × (held ≡ []) × (0 < length ctxt) ⊎ (0 < index) × (length ctxt ≡ 1)
    streams : Streams tokenizer text decodes c.stream (flatten c.tx)

  -- The context that a round passes on, and its position.
  Ready-context :
      (index : ℕ) (held ctxt : List ℕ) (c : Chat L (List Text) D R)
      → Ready index held ctxt c
      → (drop (length c.tokens - (if ltb 0 index then 1 else length c.tokens)) c.tokens ≡ ctxt)
        × ((if ltb 0 index then c.index_pos else 0) ≡ length held)
        × (0 < length ctxt)
  Ready-context index held ctxt c r = elim r.context [
    | inl (first, none', some') ↦
        let zeroth : ltb 0 index ≡ false = ground arith in
        let all : length c.tokens - length c.tokens ≡ 0 = omega arith in
        (rw (zeroth, all) (r.tokens ∙ ap (λ h. h ++ ctxt) none'), rw (zeroth, none'), some')
    | inr (later, one) ↦
        let next' : ltb 0 index ≡ true = ground arith in
        let long : length c.tokens - 1 ≡ length held =
          omega (arith, ap length r.tokens, length-append held ctxt) in
        (rw (next', long, r.tokens) (drop-length held ctxt), rw next' r.at, omega arith)
  ]

  -- A choice is a sample of logits that the penalty gives.
  choose_inv :
      (logits : Option T) (p : LogitsProcessor D R) (t : ℕ) (p' : LogitsProcessor D R)
      → (elim logits as (λ _. Outcome (Option (ℕ × LogitsProcessor D R))) [
        | none ↦ done none
        | some l ↦ sample floats candle random l p
      ])
        ≡ done (some (t, p'))
      → (l : T) × (logits ≡ some l) × (sample floats candle random l p ≡ done (some (t, p')))
  choose_inv none p t p' h = absurd (ground arith)
  choose_inv (some l) p t p' h = (l, refl, h)

  round_step :
      (index : ℕ) (held ctxt : List ℕ) (c : Chat L (List Text) D R)
      → Ready index held ctxt c
      → length c.tokens < 2 ^ 32
      → (t : ℕ) (p : LogitsProcessor D R) → choose c.tokens c.logits_processor ≡ done (some (t, p))
      → (l : L) × (round floats candle model random tokenizer worker received session cfg index c
          ≡ on_token floats candle model random tokenizer worker received session cfg t
              (record c { layers = l; index_pos = length c.tokens; logits_processor = p }))
        × Holds c.tokens l
  unfolding round forward_ctxt on_answer on_logits
  round_step index held ctxt c r small t p chosen =
      let (dropped, at, some') = Ready-context index held ctxt c r in
      let (input, n, out, l, e1, e2, e3, holds) =
        serves.forwards held ctxt c.layers 0 r.holds some' in
      let (logits, e4, e5) = choose_inv _ c.logits_processor t p chosen in
      let all = sym r.tokens in
      let further : u32 (c.index_pos + u32 (length ctxt)) ≡ length c.tokens =
        omega (arith, ap length r.tokens, length-append held ctxt, r.at) in
      (l, rw (dropped, at, e1, e2, e3, all, e4, e5, further), subst (λ ts. Holds ts l) all holds)

  rounds_lem :
      (n index : ℕ) (held ctxt : List ℕ) (c : Chat L (List Text) D R) (out : List ℕ)
      → Ready index held ctxt c
      → length c.tokens + n < 2 ^ 32
      → generate choose ends n c.tokens c.logits_processor ≡ done (some out)
      → (c' : Chat L (List Text) D R) × (rounds floats candle model random tokenizer worker received
            session cfg n index c
          ≡ done (true, c'))
        × (c'.stream.tokens ≡ c.stream.tokens ++ out)
        × Streams tokenizer text decodes c'.stream (flatten c'.tx)
  unfolding rounds generate on_token
  rounds_lem zero index held ctxt c out r small h =
      let e : [] ≡ out = some-injective _ _ (done-injective h) in
      (c, refl, sym (append-nil c.stream.tokens) ∙ ap (λ o. c.stream.tokens ++ o) e, r.streams)
  rounds_lem (suc n) index held ctxt c out r small h =
      elim (Outcome-cases (choose c.tokens c.logits_processor)) [
        | inl q ↦ absurd (ground (arith, q, h))
        | inr (none, q) ↦ absurd (ground (arith, q, h))
        | inr (some (t, p), q) ↦
            let (l, step, holds) = round_step index held ctxt c r (omega arith) t p q in
            let c1 : Chat L (List Text) D R = record c {
              layers = l;
              index_pos = length c.tokens;
              logits_processor = p;
              token_generated = c.token_generated + 1;
              tokens = c.tokens ++ t ∷ [];
            } in
            elim (Bool-cases (ends t)) [
              | inl last ↦
                  let e : [] ≡ out = some-injective _ _ (done-injective (rw (q, last) at h)) in
                  (
                    c1,
                    rw (step, last) refl,
                    sym (append-nil c.stream.tokens) ∙ ap (λ o. c.stream.tokens ++ o) e,
                    r.streams,
                  )
              | inr more ↦
                  let (rest, e, whole) = more-eq-done _ t (rw (q, more) at h) in
                  let (s, tx, sent, held', streams) =
                    stream_token-received tokenizer text decodes t c1 r.streams in
                  let (c', run, told, streams') =
                    rounds_lem n (suc index) c.tokens (t ∷ []) (record c1 { stream = s; tx = tx })
                      rest
                      (record {
                        tokens = refl;
                        holds = holds;
                        at = refl;
                        context = inr (omega arith, refl);
                        streams = streams;
                      })
                      (omega (arith, length-append c.tokens (t ∷ []))) e in
                  (
                    c',
                    rw (step, more, sent, run),
                    told
                        ∙ ap (λ ts. ts ++ rest) held'
                        ∙ append_assoc c.stream.tokens (t ∷ []) rest
                        ∙ ap (λ o. c.stream.tokens ++ o) whole,
                    streams',
                  )
            ]
      ]

  -- Let the tokenizer read every sequence of tokens, and none as no text; where some tokens go on
  -- with a text, up to an alphanumeric character, let all that follows add the same to the text of
  -- these tokens alone as to the text of the whole. And let the layers' worker compute a model for
  -- the session, wherever the layers are. If the model, asked without a cache for at most `max_len`
  -- tokens behind the prompt's, chooses tokens without an error, up to one that ends a text, then
  -- `chat` returns `Ok`, the receiver, if it stays, got the text of exactly these tokens, and the
  -- session was finished. The prompt has a token, and with the tokens behind it fewer than 2^32.
  pub chat-generate :
      (prompt : Text) (layers : L) (tokens out : List ℕ)
      → tokenizer.encode prompt ≡ some tokens
      → 0 < length tokens
      → length tokens + cfg.max_len < 2 ^ 32
      → generate choose ends cfg.max_len tokens (from_cfg floats candle random cfg)
        ≡ done (some out)
      → (l : L) × (c : Chat L (List Text) D R) × (chat floats candle model random tokenizer worker
            received session cfg prompt layers []
          ≡ done (true, c))
        × (flatten c.tx ≡ text out)
        × (c.layers ≡ worker.finish session l)
  unfolding chat finish TokenOutputStream.new flatten
  chat-generate prompt layers tokens out encoded some' small h =
      let (started, holds) = serves.starts layers in
      let (c, run, told, streams) =
        rounds_lem cfg.max_len 0 [] tokens
          (record {
            layers = (worker.start session layers).1;
            tx = [];
            stream = TokenOutputStream.new;
            tokens = tokens;
            index_pos = 0;
            logits_processor = from_cfg floats candle random cfg;
            token_generated = 0;
          })
          out
          (record {
            tokens = refl;
            holds = holds;
            at = refl;
            context = inl (refl, refl, some');
            streams = new-Streams tokenizer text decodes;
          })
          small h in
      let (o, tx, rest, sent, whole) = send_rest_lem tokenizer text decodes c streams in
      (
        c.layers,
        record c { tx = tx; layers = worker.finish session c.layers },
        rw (encoded, started, run, rest, sent),
        whole ∙ ap text told,
        refl,
      )
