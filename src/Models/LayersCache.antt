-- ===== src/Models/LayersCache.antt =====
-- LayersCache of crates/models/src/phi3/layers_cache.rs: a map from sessions to caches for each layer.
-- A cache behind its lock is a value that is read and put back.
use decentralized_llm_infere.Base.{
  ℕ, zero, suc, List, [], ◌∷◌, get_elem?, replicate, HashMap, nat_key, Outcome, done, expect, ◌>>=◌,
}
use decentralized_llm_infere.SharedMap as SharedMap
use decentralized_llm_infere.SharedMap.{get_clone}

-- Candle's `KvCache` is `C`.
pub record LayersCache (C : Type 0) : Type 0 where
  pub layers_cache : List (HashMap ℕ C)
  pub dim : ℕ
  pub max_seq_len : ℕ

-- `self.layers_cache[idx]` with a change, which panics out of bounds.
unfoldable pub change_at {ℓ} : {A : Type ℓ} → (A → A) → ℕ → List A → Outcome (List A)
change_at f i [] = Outcome.panicked
change_at f zero (x ∷ xs) = done (f x ∷ xs)
change_at f (suc i) (x ∷ xs) = change_at f i xs >>= λ ys. done (x ∷ ys)

module _ {C : Type 0} where
  unfoldable pub new : ℕ → ℕ → ℕ → LayersCache C
  new len dim max_seq_len = record {
    layers_cache = replicate len SharedMap.new;
    dim = dim;
    max_seq_len = max_seq_len;
  }

  -- A cache of a session at a layer, new or put back.
  unfoldable pub put_cache : ℕ → ℕ → C → LayersCache C → Outcome (LayersCache C)
  put_cache idx session cache c =
      change_at (λ m. (SharedMap.insert session cache m).1) idx c.layers_cache >>= λ maps.
      done (record c { layers_cache = maps })

  -- `add_cache`, with `KvCache::new`.
  unfoldable pub add_cache : (ℕ → ℕ → C) → ℕ → ℕ → LayersCache C → Outcome (LayersCache C)
  add_cache new_cache idx session c = put_cache idx session (new_cache c.dim c.max_seq_len) c

  unfoldable pub get_cache : ℕ → ℕ → LayersCache C → Outcome C
  get_cache idx session c =
      expect (get_elem? c.layers_cache idx) >>= λ m. expect (get_clone session m)

  unfoldable pub del_cache : ℕ → ℕ → LayersCache C → Outcome (LayersCache C)
  del_cache idx session c =
      change_at (λ m. (SharedMap.remove session m).1) idx c.layers_cache >>= λ maps.
      done (record c { layers_cache = maps })
