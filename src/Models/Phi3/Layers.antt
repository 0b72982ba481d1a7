-- ===== src/Models/Phi3/Layers.antt =====
-- crates/models/src/phi3/layers_worker.rs: the layers of the Phi-3 model on this node. The attention
-- with its cache is a parameter.
pub mod Columns
pub mod Refinement
use decentralized_llm_infere.Base.{
  ℕ, zero, suc, Option, none, some, List, [], ◌∷◌, ◌++◌, ltb, ◌==◌, if◌then◌else◌, Outcome, done,
  ◌>>=◌,
}
use mathlib.Core.Option
use decentralized_llm_infere.Models.{and_then}
use decentralized_llm_infere.Models.LayersCache.{
  LayersCache, put_cache, add_cache, get_cache, del_cache,
}
use decentralized_llm_infere.Models.Sessions.{
  Call, Reply, start, forward, finish, started, finished, answered,
}

-- A layer, of candle's parts.
pub record LayerWeights (T C : Type 0) : Type 0 where
  pub attn_norm : T → Option T
  -- `forward_attn(&ys, mask, index_pos, cache)`
  pub forward_attn : T → Option T → ℕ → C → Option T × C
  pub ffn_norm : T → Option T
  pub mlp : T → Option T

-- The rows of the mask: 1 where a token would look at a later one.
unfoldable pub mask_row : ℕ → ℕ → ℕ → List ℕ
mask_row zero i j = []
mask_row (suc n) i j = (if ltb i j then 1 else 0) ∷ mask_row n i (suc j)

unfoldable pub mask_rows : ℕ → ℕ → ℕ → List ℕ
mask_rows zero t i = []
mask_rows (suc n) t i = mask_row t i 0 ++ mask_rows n t (suc i)

module _ {T C : Type 0} (add : T → T → Option T) (from_slice : List ℕ → ℕ → Option T)
    (new_cache : ℕ → ℕ → C) where
  unfoldable pub mask : ℕ → Option T
  mask t = from_slice (mask_rows t t 0) t

  -- What `forward` does behind the attention of a layer.
  unfoldable pub feed_forward : LayerWeights T C → T → Option T → Option T
  feed_forward layer xs ys = and_then ys λ ys.
      and_then (add ys xs)
        λ ys. and_then (layer.ffn_norm ys) λ zs. and_then (layer.mlp zs) λ zs. add zs ys

  -- A layer with the cache of its session.
  unfoldable pub layer_forward : LayerWeights T C → Option T → T → ℕ → C → Option T × C
  layer_forward layer mask xs index_pos cache = elim (layer.attn_norm xs) [
    | none ↦ (none, cache)
    | some ys ↦
        let (zs, cache') = layer.forward_attn ys mask index_pos cache in
        (feed_forward layer xs zs, cache')
  ]

  -- One round of the loop over the layers. The cache is asked for behind the first norm, and put
  -- back where its lock is released.
  unfoldable pub round :
      LayerWeights T C
      → ℕ
      → Option T
      → T
      → ℕ
      → ℕ
      → LayersCache C
      → Outcome (Option T × LayersCache C)
  round layer idx mask xs index_pos session caches = elim (layer.attn_norm xs) [
    | none ↦ done (none, caches)
    | some ys ↦ get_cache idx session caches >>= λ cache.
        let (zs, cache') = layer.forward_attn ys mask index_pos cache in
        put_cache idx session cache' caches >>= λ caches. done (feed_forward layer xs zs, caches)
  ]

  unfoldable pub layers_forward :
      List (LayerWeights T C)
      → ℕ
      → Option T
      → T
      → ℕ
      → ℕ
      → LayersCache C
      → Outcome (Option T × LayersCache C)
  layers_forward [] idx mask xs index_pos session caches = done (some xs, caches)
  layers_forward (layer ∷ layers) idx mask xs index_pos session caches =
      round layer idx mask xs index_pos session caches >>= λ r. elim r.0 [
        | none ↦ done (none, r.1)
        | some xs ↦ layers_forward layers (suc idx) mask xs index_pos session r.1
      ]

  -- The mask of an input: none for a single token, and `none` outside for an error.
  unfoldable pub mask_for : ℕ → Option (Option T)
  mask_for seq_len = if seq_len == 1 then some none else Option.map some (mask seq_len)

  unfoldable pub forward_masked :
      List (LayerWeights T C)
      → Option (Option T)
      → (T × ℕ) × ℕ
      → ℕ
      → LayersCache C
      → Outcome (Option (T × ℕ) × LayersCache C)
  forward_masked layers none x session caches = done (none, caches)
  forward_masked layers (some m) ((xs, seq_len), index_pos) session caches =
      layers_forward layers 0 m xs index_pos session caches >>= λ r.
      done (Option.map (λ y. (y, seq_len)) r.0, r.1)

  unfoldable pub add_caches :
      List (LayerWeights T C) → ℕ → ℕ → LayersCache C → Outcome (LayersCache C)
  add_caches [] idx session caches = done caches
  add_caches (layer ∷ layers) idx session caches =
      add_cache new_cache idx session caches >>= λ caches.
      add_caches layers (suc idx) session caches

  unfoldable pub del_caches :
      List (LayerWeights T C) → ℕ → ℕ → LayersCache C → Outcome (LayersCache C)
  del_caches [] idx session caches = done caches
  del_caches (layer ∷ layers) idx session caches =
      del_cache idx session caches >>= λ caches. del_caches layers (suc idx) session caches

  -- The worker.
  unfoldable pub serve :
      List (LayerWeights T C)
      → Call ((T × ℕ) × ℕ)
      → LayersCache C
      → Outcome (Reply (T × ℕ) × LayersCache C)
  serve layers (start session) caches =
      add_caches layers 0 session caches >>= λ caches. done (started, caches)
  serve layers (forward session ((xs, seq_len), index_pos)) caches =
      forward_masked layers (mask_for seq_len) ((xs, seq_len), index_pos) session caches >>= λ r.
      done (answered r.0, r.1)
  serve layers (finish session) caches =
      del_caches layers 0 session caches >>= λ caches. done (finished, caches)
