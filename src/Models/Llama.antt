-- ===== src/Models/Llama.antt =====
-- crates/models/src/llama/mod.rs, with LlamaPre and LlamaPost of llama/internal/mod.rs: a chat with a
-- Llama model, whose layers are another's.
pub mod Equivalence
pub mod Failure
pub mod Layers
use decentralized_llm_infere.Base.{
  ℕ, zero, suc, ◌+◌, ◌-◌, ◌^◌, ◌%◌, Bool, true, false, Option, none, some, List, [], ◌∷◌, ◌++◌,
  length, drop, ltb, ◌==◌, ◌&&◌, if◌then◌else◌, u32, u64, Outcome, done, expect, ◌>>=◌,
}
use mathlib.Core.Option
use decentralized_llm_infere.Models.{
  Text, chars, and_then, ChatCfg, Tokenizer, Floats, Candle, Random,
}
use decentralized_llm_infere.Models.RepeatPenalty.{penalize, contains}
use decentralized_llm_infere.Models.Sampling.{LogitsProcessor, sample, from_cfg}
use decentralized_llm_infere.Models.TokenOutputStream as TokenOutputStream
use decentralized_llm_infere.Models.TokenOutputStream.{decode_rest}
use decentralized_llm_infere.Models.Chat.{
  Chat, Flow, continues, breaks, fails, stream_token, send_rest,
}
use decentralized_llm_infere.Worker.ModelService.{LayersWorker}

pub data LlamaEosToks : Type 0 where
  single : ℕ → LlamaEosToks
  multiple : List ℕ → LlamaEosToks

-- The parts of `LlamaPre` and `LlamaPost`, which are candle's, and the configuration's last tokens.
pub record LlamaModel (T : Type 0) : Type 0 where
  pub wte : T → Option T
  pub ln_f : T → Option T
  pub lm_head : T → Option T
  pub eos_token_id : Option LlamaEosToks

-- `match eos_token_id { … => break }`
unfoldable pub is_eos : Option LlamaEosToks → ℕ → Bool
is_eos none token = false
is_eos (some (single id)) token = token == id
is_eos (some (multiple ids)) token = contains token ids

unfoldable pub or_eos : Option LlamaEosToks → Option ℕ → Option LlamaEosToks
or_eos (some e) id = some e
or_eos none id = Option.map single id

module _ {T F D : Type 0} (floats : Floats F D) (candle : Candle T F D) (model : LlamaModel T) where
  -- `LlamaPre::forward`
  unfoldable pub pre_forward : T → Option (T × ℕ)
  pre_forward x =
      and_then (candle.seq_len x) λ seq_len. Option.map (λ t. (t, seq_len)) (model.wte x)

  -- `LlamaPost::forward`
  unfoldable pub post_forward : T → ℕ → Option T
  post_forward x seq_len = and_then (model.ln_f x) λ x.
      and_then (candle.index_row (u64 (seq_len + (2 ^ 64 - 1))) x)
        λ x. and_then (candle.contiguous x) λ x. and_then (model.lm_head x) candle.to_f32

  -- The part of a context that goes to the layers.
  unfoldable pub embed : List ℕ → Option (T × ℕ)
  embed ctxt =
      and_then (candle.from_tokens ctxt) λ input. and_then (candle.unsqueeze input) pre_forward

  unfoldable pub logits_of : T → ℕ → Option T
  logits_of out seq_len = and_then (post_forward out seq_len) candle.squeeze

  module _ {L Q R : Type 0} (random : Random F R) (tokenizer : Tokenizer)
      (worker : LayersWorker T L) (send : Text → Q → Bool × Q) (session : ℕ)
      (cfg : ChatCfg F D) where
    -- The round from the sampled token on.
    unfoldable pub on_token : ℕ → Chat L Q D R → Outcome (Flow × Chat L Q D R)
    on_token token c =
        let c = record c {
          token_generated = c.token_generated + 1;
          tokens = c.tokens ++ token ∷ [];
        } in
        if is_eos (or_eos model.eos_token_id (tokenizer.token_to_id (chars "</s>"))) token
        then done (breaks, c)
        else stream_token send tokenizer token c

    -- The round from the logits on.
    unfoldable pub on_logits : List ℕ → Option T → Chat L Q D R → Outcome (Flow × Chat L Q D R)
    on_logits ctxt none c = done (fails, c)
    on_logits ctxt (some logits) c =
        let c = record c { index_pos = u32 (c.index_pos + u32 (length ctxt)) } in
        sample floats candle random logits c.logits_processor >>= λ r. elim r [
          | none ↦ done (fails, c)
          | some (token, processor) ↦ on_token token (record c { logits_processor = processor })
        ]

    -- The round from the answer of the layers on.
    unfoldable pub on_answer :
        List ℕ → ℕ → Option (T × ℕ) → Chat L Q D R → Outcome (Flow × Chat L Q D R)
    on_answer ctxt seq_len none c = done (fails, c)
    on_answer ctxt seq_len (some (out, _)) c =
        on_logits ctxt (and_then (logits_of out seq_len) (penalize floats candle cfg c.tokens)) c

    unfoldable pub forward_ctxt :
        List ℕ → ℕ → Option (T × ℕ) → Chat L Q D R → Outcome (Flow × Chat L Q D R)
    forward_ctxt ctxt context_index none c = done (fails, c)
    forward_ctxt ctxt context_index (some (input, seq_len)) c =
        let (answer, layers) =
          worker.forward session 0 (input, u32 seq_len) context_index c.layers in
        on_answer ctxt seq_len answer (record c { layers = layers })

    -- One round of `for index in 0..cfg.max_len`.
    unfoldable pub round : ℕ → Chat L Q D R → Outcome (Flow × Chat L Q D R)
    round index c =
        let context_size = if ltb 0 index then 1 else length c.tokens in
        let context_index = if ltb 0 index then c.index_pos else 0 in
        let ctxt = drop (length c.tokens - context_size) c.tokens in
        forward_ctxt ctxt context_index (embed ctxt) c

    -- The rounds from `index` on: whether they end without an error.
    unfoldable pub rounds : ℕ → ℕ → Chat L Q D R → Outcome (Bool × Chat L Q D R)
    rounds zero index c = done (true, c)
    rounds (suc n) index c = round index c >>= λ r. elim r.0 [
      | continues ↦ rounds n (suc index) r.1
      | breaks ↦ done (true, r.1)
      | fails ↦ done (false, r.1)
    ]

    -- What follows the loop.
    unfoldable pub finish : Bool × Chat L Q D R → Outcome (Bool × Chat L Q D R)
    finish (false, c) = done (false, c)
    finish (true, c) = decode_rest tokenizer c.stream >>= λ rest. expect rest >>= λ rest.
        let c = send_rest send rest c in
        done (true, record c { layers = worker.finish session c.layers })

    -- `chat`: whether it returns `Ok`, and the state at the end.
    unfoldable pub chat : Text → L → Q → Outcome (Bool × Chat L Q D R)
    chat prompt layers tx = expect (tokenizer.encode prompt) >>= λ tokens.
        let (ok, layers) = worker.start session layers in
        let c : Chat L Q D R = record {
          layers = layers;
          tx = tx;
          stream = TokenOutputStream.new;
          tokens = tokens;
          index_pos = 0;
          logits_processor = from_cfg floats candle random cfg;
          token_generated = 0;
        } in
        let run = rounds cfg.max_len 0 c >>= finish in if ok then run else done (false, c)
