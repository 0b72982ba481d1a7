-- ===== src/Models/Phi3/Layers/Columns.antt =====
-- The caches of one session, one for each layer of crates/models/src/phi3/layers_cache.rs, as the
-- loops of crates/models/src/phi3/layers_worker.rs change them.
use decentralized_llm_infere.Base.{
  ℕ, zero, inl, inr, Option-cases, suc, ◌≡◌, refl, ap, false, Option, none, some, List, [], ◌∷◌,
  ◌++◌, map, length, length-append, get_elem?, replicate, ◌==◌, if◌then◌else◌, HashMap, nat_key,
  arith, done,
}
use mathlib.Core.List.{append_assoc}
use decentralized_llm_infere.SharedMap as SharedMap
use decentralized_llm_infere.SharedMap.{get_clone, get_clone-insert, get_clone-remove}
use decentralized_llm_infere.Models.LayersCache.{
  LayersCache, change_at, put_cache, add_cache, get_cache, del_cache,
}
use decentralized_llm_infere.Models.Phi3.Layers.{
  LayerWeights, layer_forward, round, layers_forward, add_caches, del_caches,
}

-- What each layer has for a session.
abbrev pub column : {C : Type 0} → ℕ → List (HashMap ℕ C) → List (Option C)
column s maps = map (get_clone s) maps

module _ {ℓ} {A : Type ℓ} where
  change_at_inside :
      (f : A → A) (pre : List A) (x : A) (rest : List A) (i : ℕ)
      → i ≡ length pre
      → change_at f i (pre ++ x ∷ rest) ≡ done (pre ++ f x ∷ rest)
  unfolding change_at
  change_at_inside f [] x rest i h = rw h refl
  change_at_inside f (y ∷ pre) x rest zero h = absurd (omega (arith, h))
  change_at_inside f (y ∷ pre) x rest (suc i) h =
      rw (change_at_inside f pre x rest i (omega (arith, h))) refl

  get_elem?_middle :
      (pre : List A) (x : A) (rest : List A) (i : ℕ)
      → i ≡ length pre
      → get_elem? (pre ++ x ∷ rest) i ≡ some x
  get_elem?_middle [] x rest i h = rw h refl
  get_elem?_middle (y ∷ pre) x rest zero h = absurd (omega (arith, h))
  get_elem?_middle (y ∷ pre) x rest (suc i) h = get_elem?_middle pre x rest i (omega (arith, h))

module _ {C : Type 0} where
  pub column-insert :
      (s t : ℕ) (c : C) (maps : List (HashMap ℕ C))
      → column t (map (λ m. (SharedMap.insert s c m).1) maps)
        ≡ (if t == s then map some (replicate (length maps) c) else column t maps)
  column-insert s t c [] = ground arith
  column-insert s t c (m ∷ maps) =
      ground (arith, get_clone-insert s t c m, column-insert s t c maps)

  pub column-remove :
      (s t : ℕ) (maps : List (HashMap ℕ C))
      → (t == s) ≡ false
      → column t (map (λ m. (SharedMap.remove s m).1) maps) ≡ column t maps
  column-remove s t [] h = refl
  column-remove s t (m ∷ maps) h = ground (arith, get_clone-remove s t m, column-remove s t maps h)

module _ {T C : Type 0} (add : T → T → Option T) (from_slice : List ℕ → ℕ → Option T)
    (new_cache : ℕ → ℕ → C) where
  -- A pass through the layers with the caches of one session, one for each layer.
  unfoldable pub run_layers :
      List (LayerWeights T C) → Option T → T → ℕ → List C → Option T × List C
  run_layers [] mask xs index_pos cs = (some xs, cs)
  run_layers (layer ∷ layers) mask xs index_pos [] = (none, [])
  run_layers (layer ∷ layers) mask xs index_pos (c ∷ cs) =
      let (y, c') = layer_forward add from_slice new_cache layer mask xs index_pos c in
      elim y [
        | none ↦ (none, c' ∷ cs)
        | some ys ↦ let (z, cs') = run_layers layers mask ys index_pos cs in (z, c' ∷ cs')
      ]

  module _ (d n : ℕ) where
    abbrev pub with_maps : List (HashMap ℕ C) → LayersCache C
    with_maps maps = record { layers_cache = maps; dim = d; max_seq_len = n }

    pub add_caches_lem :
        (s : ℕ) (layers : List (LayerWeights T C)) (pre rest : List (HashMap ℕ C)) (i : ℕ)
        → i ≡ length pre
        → length layers ≡ length rest
        → add_caches add from_slice new_cache layers i s (with_maps (pre ++ rest))
          ≡ done (with_maps (pre ++ map (λ m. (SharedMap.insert s (new_cache d n) m).1) rest))
    unfolding add_caches add_cache put_cache
    add_caches_lem s [] pre [] i at h = refl
    add_caches_lem s [] pre (m ∷ rest) i at h = absurd (omega (arith, h))
    add_caches_lem s (layer ∷ layers) pre [] i at h = absurd (omega (arith, h))
    add_caches_lem s (layer ∷ layers) pre (m ∷ rest) i at h =
        let m' = (SharedMap.insert s (new_cache d n) m).1 in
        let rest' = map (λ m. (SharedMap.insert s (new_cache d n) m).1) rest in
        let tail =
          add_caches_lem s layers (pre ++ m' ∷ []) rest (suc i)
            (omega (arith, at, length-append pre (m' ∷ []))) (omega (arith, h)) in
        rw (change_at_inside (λ m. (SharedMap.insert s (new_cache d n) m).1) pre m rest i at)
          (rw (append_assoc pre (m' ∷ []) rest, append_assoc pre (m' ∷ []) rest') at tail)

    pub del_caches_lem :
        (s : ℕ) (layers : List (LayerWeights T C)) (pre rest : List (HashMap ℕ C)) (i : ℕ)
        → i ≡ length pre
        → length layers ≡ length rest
        → del_caches add from_slice new_cache layers i s (with_maps (pre ++ rest))
          ≡ done (with_maps (pre ++ map (λ m. (SharedMap.remove s m).1) rest))
    unfolding del_caches del_cache
    del_caches_lem s [] pre [] i at h = refl
    del_caches_lem s [] pre (m ∷ rest) i at h = absurd (omega (arith, h))
    del_caches_lem s (layer ∷ layers) pre [] i at h = absurd (omega (arith, h))
    del_caches_lem s (layer ∷ layers) pre (m ∷ rest) i at h =
        let m' = (SharedMap.remove s m).1 in
        let rest' = map (λ m. (SharedMap.remove s m).1) rest in
        let tail =
          del_caches_lem s layers (pre ++ m' ∷ []) rest (suc i)
            (omega (arith, at, length-append pre (m' ∷ []))) (omega (arith, h)) in
        rw (change_at_inside (λ m. (SharedMap.remove s m).1) pre m rest i at)
          (rw (append_assoc pre (m' ∷ []) rest, append_assoc pre (m' ∷ []) rest') at tail)

    -- `m'` is `m` with another cache for the session `s`.
    record Puts (s : ℕ) (c : C) (m m' : HashMap ℕ C) : Type 0 where
      here : get_clone s m' ≡ some c
      apart : (t : ℕ) → (t == s) ≡ false → get_clone t m' ≡ get_clone t m

    round_lem :
        (layer : LayerWeights T C) (mask : Option T) (xs : T) (pos s i : ℕ) (c : C)
        (pre rest : List (HashMap ℕ C)) (m : HashMap ℕ C)
        → i ≡ length pre
        → get_clone s m ≡ some c
        → (m' : HashMap ℕ C) × (round add from_slice new_cache layer i mask xs pos s
              (with_maps (pre ++ m ∷ rest))
            ≡ done (
              (layer_forward add from_slice new_cache layer mask xs pos c).0,
              with_maps (pre ++ m' ∷ rest),
            ))
          × Puts s (layer_forward add from_slice new_cache layer mask xs pos c).1 m m'
    unfolding round layer_forward get_cache put_cache
    round_lem layer mask xs pos s i c pre rest m at h = elim (Option-cases (layer.attn_norm xs)) [
      | inl q ↦ (
        m,
        rw (round, layer_forward, q) refl,
        rw (layer_forward, q) (record { here = h; apart = λ t ne. refl }),
      )
      | inr (ys, q) ↦
          let c' = (layer.forward_attn ys mask pos c).1 in
          (
            (SharedMap.insert s c' m).1,
            rw
                (
                  round,
                  layer_forward,
                  q,
                  get_elem?_middle pre m rest i at,
                  h,
                  change_at_inside (λ m. (SharedMap.insert s c' m).1) pre m rest i at,
                )
                refl,
            rw (layer_forward, q)
                (record {
                  here = ground (arith, get_clone-insert s s c' m);
                  apart = λ t ne. ground (arith, get_clone-insert s t c' m, ne);
                }),
          )
    ]

    -- `rest'` has the caches `cs` for the session `s`, and for every other one what `rest` has.
    pub record Replaces (s : ℕ) (cs : List C) (rest rest' : List (HashMap ℕ C)) : Type 0 where
      pub long : length rest' ≡ length rest
      pub here : column s rest' ≡ map some cs
      pub apart : (t : ℕ) → (t == s) ≡ false → column t rest' ≡ column t rest

    Replaces-cons :
        (s : ℕ) (c : C) (cs : List C) (m m' : HashMap ℕ C) (rest rest' : List (HashMap ℕ C))
        → Puts s c m m'
        → Replaces s cs rest rest'
        → Replaces s (c ∷ cs) (m ∷ rest) (m' ∷ rest')
    Replaces-cons s c cs m m' rest rest' p r = record {
      long = ap suc r.long;
      here = rw (p.here, r.here) refl;
      apart = λ t ne. rw (p.apart t ne, r.apart t ne) refl;
    }

    pub layers_forward_lem :
        (layers : List (LayerWeights T C)) (mask : Option T) (xs : T) (pos s i : ℕ) (cs : List C)
        (pre rest : List (HashMap ℕ C))
        → i ≡ length pre
        → length layers ≡ length rest
        → column s rest ≡ map some cs
        → (rest' : List (HashMap ℕ C)) × (layers_forward add from_slice new_cache layers i mask xs
              pos s
              (with_maps (pre ++ rest))
            ≡ done ((run_layers layers mask xs pos cs).0, with_maps (pre ++ rest')))
          × Replaces s (run_layers layers mask xs pos cs).1 rest rest'
    unfolding layers_forward run_layers
    layers_forward_lem [] mask xs pos s i cs pre rest at long h =
        (rest, refl, record { long = refl; here = h; apart = λ t ne. refl })
    layers_forward_lem (layer ∷ layers) mask xs pos s i cs pre [] at long h =
        absurd (omega (arith, long))
    layers_forward_lem (layer ∷ layers) mask xs pos s i [] pre (m ∷ rest) at long h = absurd (cc)
    layers_forward_lem (layer ∷ layers) mask xs pos s i (c ∷ cs) pre (m ∷ rest) at long h =
        let first : get_clone s m ≡ some c = cc in
        let others : column s rest ≡ map some cs = cc in
        let (m', step, puts) = round_lem layer mask xs pos s i c pre rest m at first in
        let c' = (layer_forward add from_slice new_cache layer mask xs pos c).1 in
        elim (Option-cases (layer_forward add from_slice new_cache layer mask xs pos c).0) [
          | inl q ↦ (
            m' ∷ rest,
            rw (step, run_layers, q) refl,
            rw (run_layers, q)
                (Replaces-cons s c' cs m m' rest rest puts
                  (record { long = refl; here = others; apart = λ t ne. refl })),
          )
          | inr (ys, q) ↦
              let (rest', run, r) =
                layers_forward_lem layers mask ys pos s (suc i) cs (pre ++ m' ∷ []) rest
                  (omega (arith, at, length-append pre (m' ∷ []))) (omega (arith, long)) others in
              (
                m' ∷ rest',
                rw (step, run_layers, q)
                    (rw (append_assoc pre (m' ∷ []) rest, append_assoc pre (m' ∷ []) rest') at run),
                rw (run_layers, q)
                    (Replaces-cons s c' (run_layers layers mask ys pos cs).1 m m' rest rest' puts
                      r),
              )
        ]
