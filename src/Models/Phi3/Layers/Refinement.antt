-- ===== src/Models/Phi3/Layers/Refinement.antt =====
-- The worker of crates/models/src/phi3/layers_worker.rs next to the specification of Models.Sessions.
use decentralized_llm_infere.Base.{
  ℕ, ◌≡◌, refl, sym, subst, ◌∙◌, Bool-cases, Option-cases, inl, inr, Option, none, some, List, [],
  ◌∷◌, ◌++◌, map, length, length-map, replicate, length-replicate, ◌==◌, if◌then◌else◌, HashMap,
  nat_key, arith, done, done-injective,
}
use mathlib.Core.Option
use decentralized_llm_infere.SharedMap as SharedMap
use decentralized_llm_infere.Models.Sessions.{
  Call, Reply, start, forward, finish, answered, replies, Histories, update, replay, forward_at,
  specified, replay-append, replies-specified,
}
use decentralized_llm_infere.Models.LayersCache.{LayersCache}
use decentralized_llm_infere.Models.LayersCache as LayersCache
use decentralized_llm_infere.Models.Phi3.Layers.{LayerWeights, mask_for, forward_masked, serve}
use decentralized_llm_infere.Models.Phi3.Layers.Columns.{
  column, column-insert, column-remove, with_maps, run_layers, add_caches_lem, del_caches_lem,
  Replaces, layers_forward_lem,
}

module _ {T C : Type 0} (add : T → T → Option T) (from_slice : List ℕ → ℕ → Option T)
    (new_cache : ℕ → ℕ → C) (d n : ℕ) (layers : List (LayerWeights T C)) where
  -- What a call does with the caches of its session, one for each layer.
  unfoldable pub pass_masked : Option (Option T) → (T × ℕ) × ℕ → List C → Option (T × ℕ) × List C
  pass_masked none x cs = (none, cs)
  pass_masked (some mask) ((xs, seq_len), index_pos) cs =
      let (y, cs') = run_layers add from_slice new_cache layers mask xs index_pos cs in
      (Option.map (λ y. (y, seq_len)) y, cs')

  unfoldable pub pass : (T × ℕ) × ℕ → List C → Option (T × ℕ) × List C
  pass x cs = pass_masked (mask_for add from_slice new_cache x.0.1) x cs

  abbrev pub fresh : List C
  fresh = replicate (length layers) (new_cache d n)

  -- The caches of each open session are what its inputs made of new ones.
  record Rep (h : Histories ((T × ℕ) × ℕ)) (w : LayersCache C) : Type 0 where
    maps : List (HashMap ℕ C)
    whole : w ≡ with_maps add from_slice new_cache d n maps
    long : length layers ≡ length maps
    columns :
        (s : ℕ) (xs : List ((T × ℕ) × ℕ))
        → h s ≡ some xs
        → column s maps ≡ map some (replay fresh pass fresh xs)

  start-columns :
      (s : ℕ) (h : Histories ((T × ℕ) × ℕ)) (w : LayersCache C) (r : Rep h w) (t : ℕ)
      (xs : List ((T × ℕ) × ℕ))
      → update s (some []) h t ≡ some xs
      → column t (map (λ m. (SharedMap.insert s (new_cache d n) m).1) r.maps)
        ≡ map some (replay fresh pass fresh xs)
  unfolding replay
  start-columns s h w r t xs e =
      column-insert s t (new_cache d n) r.maps ∙ elim (Bool-cases (t == s)) [
        | inl q ↦
            let none_yet : [] ≡ xs = cc in
            subst
              (λ xs.
                (if t == s
                  then map some (replicate (length r.maps) (new_cache d n))
                  else column t r.maps)
                ≡ map some (replay fresh pass fresh xs))
              none_yet (rw (q, r.long) refl)
        | inr q ↦ rw q (r.columns t xs (rw q at e))
      ]

  finish-columns :
      (s : ℕ) (h : Histories ((T × ℕ) × ℕ)) (w : LayersCache C) (r : Rep h w) (t : ℕ)
      (xs : List ((T × ℕ) × ℕ))
      → update s none h t ≡ some xs
      → column t (map (λ m. (SharedMap.remove s m).1) r.maps)
        ≡ map some (replay fresh pass fresh xs)
  finish-columns s h w r t xs e = elim (Bool-cases (t == s)) [
    | inl q ↦ absurd (ground (arith, q, e))
    | inr q ↦ column-remove s t r.maps q ∙ r.columns t xs (rw q at e)
  ]

  forward_masked_lem :
      (mask : Option (Option T)) (x : (T × ℕ) × ℕ) (s : ℕ) (cs : List C) (maps : List (HashMap ℕ C))
      → length layers ≡ length maps
      → column s maps ≡ map some cs
      → (maps' : List (HashMap ℕ C)) × (forward_masked add from_slice new_cache layers mask x s
            (with_maps add from_slice new_cache d n maps)
          ≡ done ((pass_masked mask x cs).0, with_maps add from_slice new_cache d n maps'))
        × Replaces add from_slice new_cache d n s (pass_masked mask x cs).1 maps maps'
  unfolding forward_masked pass_masked
  forward_masked_lem none x s cs maps long h =
      (maps, refl, record { long = refl; here = h; apart = λ t ne. refl })
  forward_masked_lem (some mask) ((xs, seq_len), pos) s cs maps long h =
      let (maps', run, r) =
        layers_forward_lem add from_slice new_cache d n layers mask xs pos s 0 cs [] maps refl long
          h in
      (maps', rw run refl, r)

  forward-columns :
      (s : ℕ) (x : (T × ℕ) × ℕ) (xs : List ((T × ℕ) × ℕ)) (h : Histories ((T × ℕ) × ℕ))
      (w : LayersCache C) (r : Rep h w) (maps' : List (HashMap ℕ C))
      → Replaces add from_slice new_cache d n s (pass x (replay fresh pass fresh xs)).1 r.maps maps'
      → (t : ℕ) (ys : List ((T × ℕ) × ℕ)) → update s (some (xs ++ x ∷ [])) h t ≡ some ys
      → column t maps' ≡ map some (replay fresh pass fresh ys)
  forward-columns s x xs h w r maps' new t ys e = elim (Bool-cases (t == s)) [
    | inl q ↦
        let same : t ≡ s = ground (arith, q) in
        let all : xs ++ x ∷ [] ≡ ys = cc in
        rw (same, new.here, sym all, replay-append fresh pass fresh xs x) refl
    | inr q ↦ new.apart t q ∙ r.columns t ys (rw q at e)
  ]

  forward-Rep :
      (s : ℕ) (x : (T × ℕ) × ℕ) (xs : List ((T × ℕ) × ℕ)) (h : Histories ((T × ℕ) × ℕ))
      (w : LayersCache C)
      → Rep h w
      → h s ≡ some xs
      → (w' : LayersCache C) × (serve add from_slice new_cache layers (forward s x) w
          ≡ done (answered (pass x (replay fresh pass fresh xs)).0, w'))
        × Rep (update s (some (xs ++ x ∷ [])) h) w'
  unfolding serve pass
  forward-Rep s x xs h w r known =
      let (maps', run, new) =
        forward_masked_lem (mask_for add from_slice new_cache x.0.1) x s
          (replay fresh pass fresh xs) r.maps r.long (r.columns s xs known) in
      (
        with_maps add from_slice new_cache d n maps',
        rw (r.whole, run) refl,
        record {
          maps = maps';
          whole = refl;
          long = r.long ∙ sym new.long;
          columns = forward-columns s x xs h w r maps' new;
        },
      )

  step-Rep :
      (c : Call ((T × ℕ) × ℕ)) (h : Histories ((T × ℕ) × ℕ)) (w : LayersCache C) (r : Reply (T × ℕ))
      (h' : Histories ((T × ℕ) × ℕ))
      → Rep h w
      → specified fresh pass c h ≡ done (r, h')
      → (w' : LayersCache C) × (serve add from_slice new_cache layers c w ≡ done (r, w'))
        × Rep h' w'
  unfolding specified forward_at serve
  step-Rep (start s) h w r h' rep e =
      let made = add_caches_lem add from_slice new_cache d n s layers [] rep.maps 0 refl rep.long in
      subst
        (λ (z : Reply (T × ℕ) × Histories ((T × ℕ) × ℕ)).
          (w' : LayersCache C) × (serve add from_slice new_cache layers (start s) w
            ≡ done (z.0, w'))
          × Rep z.1 w')
        (done-injective e)
        (
          _,
          rw (rep.whole, made) refl,
          record {
            maps = map (λ m. (SharedMap.insert s (new_cache d n) m).1) rep.maps;
            whole = refl;
            long = rep.long ∙ sym (length-map _ rep.maps);
            columns = start-columns s h w rep;
          },
        )
  step-Rep (finish s) h w r h' rep e =
      let gone = del_caches_lem add from_slice new_cache d n s layers [] rep.maps 0 refl rep.long in
      subst
        (λ (z : Reply (T × ℕ) × Histories ((T × ℕ) × ℕ)).
          (w' : LayersCache C) × (serve add from_slice new_cache layers (finish s) w
            ≡ done (z.0, w'))
          × Rep z.1 w')
        (done-injective e)
        (
          _,
          rw (rep.whole, gone) refl,
          record {
            maps = map (λ m. (SharedMap.remove s m).1) rep.maps;
            whole = refl;
            long = rep.long ∙ sym (length-map _ rep.maps);
            columns = finish-columns s h w rep;
          },
        )
  step-Rep (forward s x) h w r h' rep e = elim (Option-cases (h s)) [
    | inl q ↦ absurd (ground (arith, rw q at e))
    | inr (xs, q) ↦
        subst
          (λ (z : Reply (T × ℕ) × Histories ((T × ℕ) × ℕ)).
            (w' : LayersCache C) × (serve add from_slice new_cache layers (forward s x) w
              ≡ done (z.0, w'))
            × Rep z.1 w')
          (done-injective (rw q at e)) (forward-Rep s x xs h w rep q)
  ]

  new-Rep : Rep (λ _. none) (LayersCache.new (length layers) d n)
  unfolding LayersCache.new
  new-Rep = record {
    maps = replicate (length layers) SharedMap.new;
    whole = refl;
    long = sym (length-replicate (length layers) SharedMap.new);
    columns = λ s xs e. absurd (ground (arith, e));
  }

  -- The worker of a Phi-3 model, with an empty cache for each of its layers, answers every sequence of
  -- calls, of any number of sessions in any order, as the specification does: each `forward` gives
  -- what the layers make of its input, each layer with a cache of its own that has seen exactly the
  -- inputs of this session since it started. The specification has no answer for a `forward` of a
  -- session that is not open.
  pub replies-serve_columns :
      (cs : List (Call ((T × ℕ) × ℕ))) (rs : List (Reply (T × ℕ)))
      → replies (specified fresh pass) cs (λ _. none) ≡ done rs
      → replies (serve add from_slice new_cache layers) cs (LayersCache.new (length layers) d n)
        ≡ done rs
  replies-serve_columns cs rs e =
      replies-specified fresh pass (serve add from_slice new_cache layers) Rep
        (λ c h w r h' rep q. step-Rep c h w r h' rep q) cs (λ _. none)
        (LayersCache.new (length layers) d n) rs new-Rep e
