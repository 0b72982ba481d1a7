-- ===== src/Tests/LlamaChat.antt =====
-- A chat over the layers' worker of crates/models/src/llama/layers_worker.rs, with one block: the
-- theorem on the chats of crates/models/src/llama/mod.rs at a concrete input.
use decentralized_llm_infere.Base.{
  ℕ, ◌≡◌, refl, true, Option, none, some, List, [], ◌∷◌, ◌++◌, length, u32, arith, done, panicked,
  Outcome, HashMap, nat_key,
}
use mathlib.Core.List.{flatten}
use decentralized_llm_infere.Models.{Text}
use decentralized_llm_infere.Models.RepeatPenalty.{penalize}
use decentralized_llm_infere.Models.Sampling.{
  sample, sample_with, sample_argmax, max_by, max_from, put_rng, from_cfg, sampling_of,
}
use decentralized_llm_infere.Models.Chat.{Chat}
use decentralized_llm_infere.Models.Chat.Reference.{generate, Serves, received}
use decentralized_llm_infere.Models.Llama as Llama
use decentralized_llm_infere.Models.Llama.{LlamaModel}
use decentralized_llm_infere.Models.Llama.Layers as Layers
use decentralized_llm_infere.Models.Llama.Layers.{Block}
use decentralized_llm_infere.Models.Sessions.{Call, Reply, answered, started, finished}
use decentralized_llm_infere.SharedMap as SharedMap
use decentralized_llm_infere.SharedMap.{get_clone, get_clone-insert}
use decentralized_llm_infere.Models.Llama.Equivalence.{chat-generate}
use decentralized_llm_infere.Worker.ModelService.{LayersWorker}
use decentralized_llm_infere.Tests.Chat.{
  floats, candle, random, strip, tokenizer, strip-Decodes, cfg, llama,
}

-- A block whose cache is the tokens that it got, and whose attention gives them back.
abbrev block : Block (List ℕ) (List ℕ)
block = record {
  rms_1 = some;
  attn = λ x pos idx cache. (some (cache ++ x), cache ++ x);
  rms_2 = some;
  mlp = some;
}

abbrev serve :
    Call ((List ℕ × ℕ) × ℕ) → HashMap ℕ (List ℕ) → Outcome (Reply (List ℕ × ℕ) × HashMap ℕ (List ℕ))
serve = Layers.serve (λ x y. some x) (block ∷ []) (some [])

-- The worker of crates/models/src/llama/layers_worker.rs, where a call does not panic.
abbrev given :
    Outcome (Reply (List ℕ × ℕ) × HashMap ℕ (List ℕ))
    → HashMap ℕ (List ℕ)
    → Option (List ℕ × ℕ) × HashMap ℕ (List ℕ)
given panicked l = (none, l)
given (done (answered out, l')) l = (out, l')
given (done (started, l')) l = (none, l')
given (done (finished, l')) l = (none, l')

abbrev layers : LayersWorker (List ℕ) (HashMap ℕ (List ℕ))
layers = record {
  start = λ session l. (true, (given (serve (Call.start session) l) l).1);
  forward = λ session step x pos l. given (serve (Call.forward session (x, pos)) l) l;
  finish = λ session l. (given (serve (Call.finish session) l) l).1;
}

abbrev HasCache : List ℕ → HashMap ℕ (List ℕ) → Type 0
HasCache tokens l = get_clone 1 l ≡ some tokens

llama_serves :
    Serves layers 1
      (Llama.embed floats candle llama)
      (λ out seq_len. Llama.logits_of floats candle llama out.0 seq_len)
      (λ ts. ts)
      HasCache
unfolding Llama.embed Llama.pre_forward Llama.logits_of Llama.post_forward Layers.serve Layers.pass
    Layers.layers_forward Layers.block_forward Layers.feed_forward
llama_serves = record {
  starts = λ l. (refl, get_clone-insert 1 1 [] l);
  forwards = λ tokens ctxt l step h pos. (
    ctxt,
    length ctxt,
    (tokens ++ ctxt, u32 (length ctxt)),
    (SharedMap.insert 1 (tokens ++ ctxt) l).1,
    refl,
    rw h refl,
    refl,
    get_clone-insert 1 1 (tokens ++ ctxt) l,
  );
}

llama_said :
    generate
      (Llama.Equivalence.choose floats candle llama random tokenizer strip strip-Decodes layers 1
        cfg
        (λ ts. ts)
        HasCache
        llama_serves)
      (Llama.is_eos (Llama.or_eos none none))
      4
      (1 ∷ 0 ∷ [])
      (from_cfg floats candle random cfg)
    ≡ done (some (0 ∷ 0 ∷ 0 ∷ 0 ∷ []))
unfolding generate penalize sample sample_with sample_argmax max_by max_from put_rng from_cfg
    sampling_of Llama.is_eos Llama.or_eos
llama_said = refl

chat-generate_example :
    (l : HashMap ℕ (List ℕ)) × (c : Chat (HashMap ℕ (List ℕ)) (List Text) ℕ ℕ) × (Llama.chat floats
        candle llama random tokenizer layers received 1 cfg
        (1 ∷ 0 ∷ [])
        []
        []
      ≡ done (true, c))
    × (flatten c.tx ≡ strip (0 ∷ 0 ∷ 0 ∷ 0 ∷ []))
    × (c.layers ≡ layers.finish 1 l)
chat-generate_example =
    chat-generate floats candle llama random tokenizer strip strip-Decodes layers 1 cfg (λ ts. ts)
      HasCache llama_serves (1 ∷ 0 ∷ []) [] (1 ∷ 0 ∷ []) (0 ∷ 0 ∷ 0 ∷ 0 ∷ []) refl (omega arith)
      (omega arith) llama_said
