-- ===== src/Models/Phi3.antt =====
-- crates/models/src/phi3: a chat with the Phi-3 model (mod.rs, preprocessing.rs, postprocessing.rs),
-- whose layers are another's. Of the state of a chat, `index_pos` and `token_generated` are not used.
pub mod Equivalence
pub mod Layers
pub mod Passes
pub mod Rounds
use decentralized_llm_infere.Base.{
  ℕ, zero, suc, ◌+◌, ◌-◌, ◌^◌, ◌%◌, Bool, true, false, Option, none, some, List, [], ◌∷◌, ◌++◌,
  length, ◌==◌, if◌then◌else◌, u32, u64, Outcome, done, panicked, expect, ◌>>=◌,
}
use mathlib.Core.Option
use decentralized_llm_infere.Models.{
  Text, chars, and_then, ChatCfg, Tokenizer, Floats, Candle, Random,
}
use decentralized_llm_infere.Models.RepeatPenalty.{penalize}
use decentralized_llm_infere.Models.Sampling.{LogitsProcessor, sample, from_cfg}
use decentralized_llm_infere.Models.TokenOutputStream as TokenOutputStream
use decentralized_llm_infere.Models.TokenOutputStream.{next_token, decode_rest}
use decentralized_llm_infere.Models.Chat.{
  Chat, Flow, continues, breaks, fails, stream_token, send_rest,
}
use decentralized_llm_infere.Worker.ModelService.{LayersWorker}

-- The parts of `Phi3Preprocessor` and `Phi3Postprocessor`, which are candle's.
pub record Phi3Model (T : Type 0) : Type 0 where
  pub tok_embeddings : T → Option T
  pub output_norm : T → Option T
  pub output : T → Option T

-- The end of a round whose token was streamed: the last token of a text breaks the loop.
unfoldable pub unless_eos : Bool → Flow → Flow
unless_eos last fails = fails
unless_eos last breaks = breaks
unless_eos last continues = if last then breaks else continues

module _ {T F D : Type 0} (floats : Floats F D) (candle : Candle T F D) (model : Phi3Model T) where
  -- `Phi3Preprocessor::forward`
  unfoldable pub pre_forward : T → Option (T × ℕ)
  pre_forward xs =
      and_then (candle.seq_len xs)
        λ seq_len. Option.map (λ e. (e, u32 seq_len)) (model.tok_embeddings xs)

  -- `Phi3Postprocessor::forward`
  unfoldable pub post_forward : T × ℕ → Option T
  post_forward (xs, seq_len) =
      and_then (model.output_norm xs)
        λ xs. and_then (candle.index_row (u64 (seq_len + (2 ^ 64 - 1))) xs) model.output

  -- The part of a token that goes to the layers.
  unfoldable pub embed : List ℕ → Option (T × ℕ)
  embed tokens =
      and_then (candle.from_tokens tokens) λ input. and_then (candle.unsqueeze input) pre_forward

  unfoldable pub logits_of : T × ℕ → Option T
  logits_of out = and_then (post_forward out) candle.squeeze

  module _ {L Q R : Type 0} (random : Random F R) (tokenizer : Tokenizer)
      (worker : LayersWorker T L) (send : Text → Q → Bool × Q) (session : ℕ)
      (cfg : ChatCfg F D) where
    unfoldable pub pass_input : Option (T × ℕ) → ℕ → ℕ → Chat L Q D R → Option T × Chat L Q D R
    pass_input none step pos c = (none, c)
    pass_input (some input) step pos c =
        let (answer, layers) = worker.forward session step input pos c.layers in
        (and_then answer logits_of, record c { layers = layers })

    -- The logits behind one more token.
    unfoldable pub pass : ℕ → ℕ → ℕ → Chat L Q D R → Option T × Chat L Q D R
    pass token step pos c = pass_input (embed (token ∷ [])) step pos c

    -- `logits_processor.sample(&logits)?`, where the logits may have failed before.
    unfoldable pub sample_next : Option T → Chat L Q D R → Outcome (Option ℕ × Chat L Q D R)
    sample_next none c = done (none, c)
    sample_next (some logits) c = sample floats candle random logits c.logits_processor >>= λ r.
        elim r [
          | none ↦ done (none, c)
          | some (t, processor) ↦ done (some t, record c { logits_processor = processor })
        ]

    -- The first loop: the prompt, token by token.
    unfoldable pub prompt_rounds : ℕ → List ℕ → ℕ → Chat L Q D R → Outcome (Option ℕ × Chat L Q D R)
    prompt_rounds pos [] next c = done (some next, c)
    prompt_rounds pos (t ∷ ts) next c =
        let r = pass t 0 (u32 pos) c in
        sample_next r.0 r.1 >>= λ s. elim s.0 [
          | none ↦ done (none, s.1)
          | some n ↦ prompt_rounds (suc pos) ts n s.1
        ]

    -- The first token of the answer: `false` for an error. A failure to send it panics.
    unfoldable pub first_token : ℕ → Chat L Q D R → Outcome (Bool × Chat L Q D R)
    first_token next c = next_token tokenizer next c.stream >>= λ r.
        let c = record c { tokens = next ∷ []; stream = r.1 } in
        elim r.0 [
          | none ↦ done (false, c)
          | some none ↦ done (true, c)
          | some (some t) ↦
              let (ok, tx) = send t c.tx in
              if ok then done (true, record c { tx = tx }) else panicked
        ]

    -- The round from the sampled token on, with the token for the next round.
    unfoldable pub on_token : ℕ → ℕ → Chat L Q D R → Outcome (Flow × ℕ × Chat L Q D R)
    on_token eos token c =
        stream_token send tokenizer token (record c { tokens = c.tokens ++ token ∷ [] }) >>= λ r.
        done (unless_eos (token == eos) r.0, token, r.1)

    -- One round of the second loop.
    unfoldable pub round : ℕ → ℕ → ℕ → ℕ → Chat L Q D R → Outcome (Flow × ℕ × Chat L Q D R)
    round eos prompt_len index next c =
        let r = pass next (u32 (index + 1)) (u32 (u32 prompt_len + index)) c in
        sample_next (and_then r.0 (penalize floats candle cfg r.1.tokens)) r.1 >>= λ s. elim s.0 [
          | none ↦ done (fails, next, s.1)
          | some t ↦ on_token eos t s.1
        ]

    -- The rounds from `index` on: whether they end without an error.
    unfoldable pub rounds : ℕ → ℕ → ℕ → ℕ → ℕ → Chat L Q D R → Outcome (Bool × Chat L Q D R)
    rounds zero eos prompt_len index next c = done (true, c)
    rounds (suc n) eos prompt_len index next c = round eos prompt_len index next c >>= λ r.
        elim r.0 [
          | continues ↦ rounds n eos prompt_len (suc index) r.1 r.2
          | breaks ↦ done (true, r.2)
          | fails ↦ done (false, r.2)
        ]

    -- `0..(cfg.max_len - tokens.len() as u32)`: the number of rounds, in `u32` arithmetic.
    unfoldable pub rounds_left : ℕ → ℕ
    rounds_left prompt_len = u32 (cfg.max_len + (2 ^ 32 - u32 prompt_len))

    -- What follows the loops.
    unfoldable pub finish : Bool × Chat L Q D R → Outcome (Bool × Chat L Q D R)
    finish (false, c) = done (false, c)
    finish (true, c) = decode_rest tokenizer c.stream >>= λ rest. elim rest [
      | none ↦ done (false, c)
      | some rest ↦
          let c = send_rest send rest c in
          done (true, record c { layers = worker.finish session c.layers })
    ]

    -- The second loop and what follows it.
    unfoldable pub answer : ℕ → ℕ → Bool × Chat L Q D R → Outcome (Bool × Chat L Q D R)
    answer prompt_len next (false, c) = done (false, c)
    answer prompt_len next (true, c) =
        expect (tokenizer.get_vocab (chars "<|endoftext|>")) >>= λ eos.
        rounds (rounds_left prompt_len) eos prompt_len 0 next c >>= finish

    -- `chat`: whether it returns `Ok`, and the state at the end.
    unfoldable pub chat : Text → L → Q → Outcome (Bool × Chat L Q D R)
    chat prompt layers tx = expect (tokenizer.encode prompt) >>= λ tokens.
        let (ok, layers) = worker.start session layers in
        let c : Chat L Q D R = record {
          layers = layers;
          tx = tx;
          stream = TokenOutputStream.new;
          tokens = [];
          index_pos = 0;
          logits_processor = from_cfg floats candle random cfg;
          token_generated = 0;
        } in
        let run = prompt_rounds 0 tokens 0 c >>= λ r. elim r.0 [
          | none ↦ done (false, r.1)
          | some next ↦ first_token next r.1 >>= answer (length tokens) next
        ] in
        if ok then run else done (false, c)
