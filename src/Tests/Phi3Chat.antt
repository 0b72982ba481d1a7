-- ===== src/Tests/Phi3Chat.antt =====
-- A chat over the layers' worker of crates/models/src/phi3/layers_worker.rs, with one layer: the
-- theorem on the chats of crates/models/src/phi3/mod.rs at a concrete input.
use decentralized_llm_infere.Base.{
  ℕ, ◌≡◌, true, Option, none, some, List, [], ◌∷◌, ◌++◌, done, panicked, Outcome, HashMap, nat_key,
}
use decentralized_llm_infere.Models.Chat.{Chat}
use decentralized_llm_infere.Models.Phi3.Layers as Layers
use decentralized_llm_infere.Models.Phi3.Layers.{LayerWeights}
use decentralized_llm_infere.Models.LayersCache as LayersCache
use decentralized_llm_infere.Models.LayersCache.{LayersCache}
use decentralized_llm_infere.Models.Sessions.{Call, Reply, answered, started, finished}
use decentralized_llm_infere.SharedMap as SharedMap
use decentralized_llm_infere.SharedMap.{get_clone}
use decentralized_llm_infere.Models.Phi3 as Phi3
use decentralized_llm_infere.Models.Phi3.{Phi3Model}
use decentralized_llm_infere.Worker.ModelService.{LayersWorker}

abbrev phi3 : Phi3Model (List ℕ)
phi3 = record { tok_embeddings = some; output_norm = some; output = some }

-- A layer whose cache is the tokens that it got, and whose attention gives them back.
abbrev layer : LayerWeights (List ℕ) (List ℕ)
layer = record {
  attn_norm = some;
  forward_attn = λ x mask pos cache. (some (cache ++ x), cache ++ x);
  ffn_norm = some;
  mlp = some;
}

-- The caches of the only layer.
abbrev caches : HashMap ℕ (List ℕ) → LayersCache (List ℕ)
caches m = record { layers_cache = m ∷ []; dim = 8; max_seq_len = 16 }

abbrev only : LayersCache (List ℕ) → HashMap ℕ (List ℕ)
only w = elim w.layers_cache [ [] ↦ [] | m ∷ ms ↦ m ]

abbrev serve :
    Call ((List ℕ × ℕ) × ℕ)
    → HashMap ℕ (List ℕ)
    → Outcome (Reply (List ℕ × ℕ) × LayersCache (List ℕ))
serve call m =
    Layers.serve (λ x y. some x) (λ xs n. some xs) (λ d n. []) (layer ∷ []) call (caches m)

-- The worker, where a call does not panic.
abbrev given :
    Outcome (Reply (List ℕ × ℕ) × LayersCache (List ℕ))
    → HashMap ℕ (List ℕ)
    → Option (List ℕ × ℕ) × HashMap ℕ (List ℕ)
given panicked m = (none, m)
given (done (answered out, w)) m = (out, only w)
given (done (started, w)) m = (none, only w)
given (done (finished, w)) m = (none, only w)

abbrev served : LayersWorker (List ℕ) (HashMap ℕ (List ℕ))
served = record {
  start = λ session m. (true, (given (serve (Call.start session) m) m).1);
  forward = λ session step x pos m. given (serve (Call.forward session (x, pos)) m) m;
  finish = λ session m. (given (serve (Call.finish session) m) m).1;
}

abbrev HasCache : List ℕ → HashMap ℕ (List ℕ) → Type 0
HasCache tokens m = get_clone 1 m ≡ some tokens
