-- ===== src/Models/Llama/Failure.antt =====
-- What a failed chat with a Llama model leaves behind.
use decentralized_llm_infere.Base.{
  ℕ, zero, suc, ◌≡◌, refl, sym, ap, subst, ◌∙◌, Bool, true, false, Outcome-cases, Bool-cases, inl,
  inr, Option, none, some, List, arith, Outcome, done, expect, done-injective, >>=-eq-done, u32,
}
use decentralized_llm_infere.Models.{Text, chars, ChatCfg, Tokenizer, Floats, Candle, Random}
use decentralized_llm_infere.Models.Sampling.{sample}
use decentralized_llm_infere.Models.TokenOutputStream.{next_token, decode_rest}
use decentralized_llm_infere.Models.Chat.{
  Chat, Flow, continues, breaks, fails, send_text, stream_token,
}
use decentralized_llm_infere.Models.Llama.{
  LlamaModel, is_eos, or_eos, forward_ctxt, on_answer, on_logits, on_token, round, rounds, finish,
  chat,
}
use decentralized_llm_infere.Worker.ModelService.{LayersWorker}

same_layers :
    {A L Q D R : Type 0} {a a' : A} {c c' : Chat L Q D R}
    → ◌≡◌ {A = Outcome (A × Chat L Q D R)} (done (a, c)) (done (a', c'))
    → c'.layers ≡ c.layers
same_layers {A} {L} {Q} {D} {R} e =
    sym (ap (λ (z : A × Chat L Q D R). z.1.layers) (done-injective e))

module _ {T F D L Q R : Type 0} (floats : Floats F D) (candle : Candle T F D) (model : LlamaModel T)
    (random : Random F R) (tokenizer : Tokenizer) (worker : LayersWorker T L)
    (send : Text → Q → Bool × Q) (session : ℕ) (cfg : ChatCfg F D) (Open : L → Type 0)
    (starts : (l : L) → Open (worker.start session l).1)
    (forwards : (step pos : ℕ) (x : T × ℕ) (l : L)
      → Open l
      → Open (worker.forward session step x pos l).1) where
  send_text-layers : (o : Option Text) (c : Chat L Q D R) → (send_text send o c).1.layers ≡ c.layers
  unfolding send_text
  send_text-layers none c = refl
  send_text-layers (some t) c = refl

  stream_token-layers :
      (t : ℕ) (c : Chat L Q D R) {f : Flow} {c' : Chat L Q D R}
      → stream_token send tokenizer t c ≡ done (f, c')
      → c'.layers ≡ c.layers
  unfolding stream_token
  stream_token-layers t c {f} {c'} h = elim (Outcome-cases (next_token tokenizer t c.stream)) [
    | inl q ↦ absurd (ground (arith, q, h))
    | inr ((none, s), q) ↦ same_layers (rw q at h)
    | inr ((some o, s), q) ↦ same_layers (rw q at h) ∙ send_text-layers o (record c { stream = s })
  ]

  on_token-layers :
      (t : ℕ) (c : Chat L Q D R) {f : Flow} {c' : Chat L Q D R}
      → on_token floats candle model random tokenizer worker send session cfg t c ≡ done (f, c')
      → c'.layers ≡ c.layers
  unfolding on_token
  on_token-layers t c h =
      elim (Bool-cases
        (is_eos (or_eos model.eos_token_id (tokenizer.token_to_id (chars "</s>"))) t)) [
          | inl last ↦ same_layers (rw last at h)
          | inr more ↦ stream_token-layers t _ (rw more at h)
        ]

  on_logits-layers :
      (ctxt : List ℕ) (o : Option T) (c : Chat L Q D R) {f : Flow} {c' : Chat L Q D R}
      → on_logits floats candle model random tokenizer worker send session cfg ctxt o c
        ≡ done (f, c')
      → c'.layers ≡ c.layers
  unfolding on_logits
  on_logits-layers ctxt none c h = same_layers h
  on_logits-layers ctxt (some l) c h =
      elim (Outcome-cases (sample floats candle random l c.logits_processor)) [
        | inl q ↦ absurd (ground (arith, q, h))
        | inr (none, q) ↦ same_layers (rw q at h)
        | inr (some (t, p), q) ↦ on_token-layers t _ (rw q at h)
      ]

  on_answer-layers :
      (ctxt : List ℕ) (n : ℕ) (o : Option (T × ℕ)) (c : Chat L Q D R) {f : Flow} {c' : Chat L Q D R}
      → on_answer floats candle model random tokenizer worker send session cfg ctxt n o c
        ≡ done (f, c')
      → c'.layers ≡ c.layers
  unfolding on_answer
  on_answer-layers ctxt n none c h = same_layers h
  on_answer-layers ctxt n (some out) c h = on_logits-layers ctxt _ c h

  forward_ctxt-Open :
      (ctxt : List ℕ) (pos : ℕ) (o : Option (T × ℕ)) (c : Chat L Q D R) {f : Flow}
      {c' : Chat L Q D R}
      → forward_ctxt floats candle model random tokenizer worker send session cfg ctxt pos o c
        ≡ done (f, c')
      → Open c.layers
      → Open c'.layers
  unfolding forward_ctxt
  forward_ctxt-Open ctxt pos none c h v = subst Open (sym (same_layers h)) v
  forward_ctxt-Open ctxt pos (some (input, n)) c h v =
      subst Open (sym (on_answer-layers ctxt n _ _ h)) (forwards 0 pos (input, u32 n) c.layers v)

  round-Open :
      (index : ℕ) (c : Chat L Q D R) {f : Flow} {c' : Chat L Q D R}
      → round floats candle model random tokenizer worker send session cfg index c ≡ done (f, c')
      → Open c.layers
      → Open c'.layers
  unfolding round
  round-Open index c h v = forward_ctxt-Open _ _ _ c h v

  rounds-Open :
      (n index : ℕ) (c : Chat L Q D R) {ok : Bool} {c' : Chat L Q D R}
      → rounds floats candle model random tokenizer worker send session cfg n index c
        ≡ done (ok, c')
      → Open c.layers
      → Open c'.layers
  unfolding rounds
  rounds-Open zero index c h v = subst Open (sym (same_layers h)) v
  rounds-Open (suc n) index c h v =
      elim (Outcome-cases
        (round floats candle model random tokenizer worker send session cfg index c)) [
          | inl q ↦ absurd (ground (arith, q, h))
          | inr ((continues, c1), q) ↦
              rounds-Open n (suc index) c1 (rw q at h) (round-Open index c q v)
          | inr ((breaks, c1), q) ↦
              subst Open (sym (same_layers (rw q at h))) (round-Open index c q v)
          | inr ((fails, c1), q) ↦
              subst Open (sym (same_layers (rw q at h))) (round-Open index c q v)
        ]

  finish_ok :
      (r : Bool × Chat L Q D R) {c : Chat L Q D R}
      → finish floats candle model random tokenizer worker send session cfg r ≡ done (false, c)
      → r ≡ (false, c)
  unfolding finish
  finish_ok (false, c) h = done-injective h
  finish_ok (true, c) h = elim (Outcome-cases (decode_rest tokenizer c.stream)) [
    | inl q ↦ absurd (ground (arith, q, h))
    | inr (none, q) ↦ absurd (ground (arith, q, h))
    | inr (some rest, q) ↦ absurd (ground (arith, rw q at h))
  ]

  -- A chat that returns `Err`, be it that the layers refuse the session, that they fail to pass a
  -- context on, or that candle or the tokenizer fail in the middle of an answer, leaves the session
  -- as it is: whatever `start` makes true of the layers and `forward` keeps, such as that they hold
  -- the session, is true afterwards, since nothing finishes the session.
  pub chat-Open :
      (prompt : Text) (layers : L) (tx : Q) {c : Chat L Q D R}
      → chat floats candle model random tokenizer worker send session cfg prompt layers tx
        ≡ done (false, c)
      → Open c.layers
  unfolding chat
  chat-Open prompt layers tx h =
      let (tokens, e, h1) = >>=-eq-done (expect (tokenizer.encode prompt)) _ h in
      elim (Bool-cases (worker.start session layers).0) [
        | inl ok ↦
            let (r, run, h2) = >>=-eq-done _ _ (rw ok at h1) in
            rounds-Open cfg.max_len 0 _ (run ∙ ap done (finish_ok r h2)) (starts layers)
        | inr no' ↦ subst Open (sym (same_layers (rw no' at h1))) (starts layers)
      ]
