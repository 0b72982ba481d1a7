-- ===== src/Models/Llama/Layers.antt =====
-- crates/models/src/llama/layers_worker.rs, with LlamaLayers and Block of llama/internal/mod.rs: the
-- layers of a Llama model on this node. The attention with its cache is a parameter.
use decentralized_llm_infere.Base.{
  ℕ, suc, ◌≡◌, refl, ap, ◌∙◌, Option, none, some, List, [], ◌∷◌, ◌++◌, HashMap, nat_key, arith,
  Outcome, done, expect, ◌>>=◌, Option-cases, inl, inr, subst, done-injective,
}
use mathlib.Core.Option
use decentralized_llm_infere.SharedMap as SharedMap
use decentralized_llm_infere.SharedMap.{
  get_clone, get_clone-new, get_clone-insert, get_clone-remove,
}
use decentralized_llm_infere.Models.Sessions.{
  Call, Reply, start, forward, finish, started, finished, answered, replies, Histories, update,
  replay, forward_at, specified, replay-append, replies-specified,
}

-- `Block`, of candle's layers: the results of `forward` are errors where they are `none`.
pub record Block (T C : Type 0) : Type 0 where
  pub rms_1 : T → Option T
  -- `attn.forward(&x, index_pos, block_idx, cache)`
  pub attn : T → ℕ → ℕ → C → Option T × C
  pub rms_2 : T → Option T
  pub mlp : T → Option T

module _ {T C : Type 0} (add : T → T → Option T) where
  -- The feed-forward half of `Block::forward`, behind the attention.
  unfoldable pub feed_forward : Block T C → T → Option T → Option T
  feed_forward b residual none = none
  feed_forward b residual (some x) = elim (add x residual) [
    | none ↦ none
    | some x ↦ elim (b.rms_2 x) [
      | none ↦ none
      | some y ↦ elim (b.mlp y) [ none ↦ none | some y ↦ add y x ]
    ]
  ]

  unfoldable pub block_forward : Block T C → T → ℕ → ℕ → C → Option T × C
  block_forward b x index_pos block_idx cache = elim (b.rms_1 x) [
    | none ↦ (none, cache)
    | some y ↦ let (z, cache') = b.attn y index_pos block_idx cache in (feed_forward b x z, cache')
  ]

  -- `LlamaLayers::forward`, from a block on.
  unfoldable pub layers_forward : List (Block T C) → ℕ → T → ℕ → C → Option T × C
  layers_forward [] block_idx x index_pos cache = (some x, cache)
  layers_forward (b ∷ bs) block_idx x index_pos cache =
      let (y, cache') = block_forward b x index_pos block_idx cache in
      elim y [
        | none ↦ (none, cache')
        | some y ↦ layers_forward bs (suc block_idx) y index_pos cache'
      ]

  -- What a call passes on: the tensor with its length, and its position.
  module _ (blocks : List (Block T C)) (new_cache : Option C) where
    -- What a call does with the cache of its session.
    unfoldable pub pass : (T × ℕ) × ℕ → C → Option (T × ℕ) × C
    pass ((xs, seq_len), index_pos) cache =
        let (res, cache') = layers_forward blocks 0 xs index_pos cache in
        (Option.map (λ y. (y, seq_len)) res, cache')

    -- The worker, whose cache of a session is put back where the lock is released.
    unfoldable pub serve : Call ((T × ℕ) × ℕ) → HashMap ℕ C → Outcome (Reply (T × ℕ) × HashMap ℕ C)
    serve (start session) caches =
        expect new_cache >>= λ cache. done (started, (SharedMap.insert session cache caches).1)
    serve (forward session x) caches = expect (get_clone session caches) >>= λ cache.
        let (res, cache') = pass x cache in
        done (answered res, (SharedMap.insert session cache' caches).1)
    serve (finish session) caches = done (finished, (SharedMap.remove session caches).1)

    -- The cache of each session is what its inputs made of a new one.
    abbrev Rep : C → Histories ((T × ℕ) × ℕ) → HashMap ℕ C → Type 0
    Rep fresh h caches = (s : ℕ) → get_clone s caches ≡ Option.map (replay fresh pass fresh) (h s)

    module _ (fresh : C) where
      start-Rep :
          (s : ℕ) (h : Histories ((T × ℕ) × ℕ)) (caches : HashMap ℕ C)
          → Rep fresh h caches
          → Rep fresh (update s (some []) h) (SharedMap.insert s fresh caches).1
      unfolding replay
      start-Rep s h caches rep t = get_clone-insert s t fresh caches ∙ ground (arith, rep t)

      finish-Rep :
          (s : ℕ) (h : Histories ((T × ℕ) × ℕ)) (caches : HashMap ℕ C)
          → Rep fresh h caches
          → Rep fresh (update s none h) (SharedMap.remove s caches).1
      finish-Rep s h caches rep t = get_clone-remove s t caches ∙ ground (arith, rep t)

      forward-Rep :
          (s : ℕ) (x : (T × ℕ) × ℕ) (xs : List ((T × ℕ) × ℕ)) (h : Histories ((T × ℕ) × ℕ))
          (caches : HashMap ℕ C)
          → Rep fresh h caches
          → Rep fresh
              (update s (some (xs ++ x ∷ [])) h)
              (SharedMap.insert s (pass x (replay fresh pass fresh xs)).1 caches).1
      forward-Rep s x xs h caches rep t =
          get_clone-insert s t (pass x (replay fresh pass fresh xs)).1 caches
          ∙ ground (arith, rep t, replay-append fresh pass fresh xs x)

      step-Rep :
          (c : Call ((T × ℕ) × ℕ)) (h : Histories ((T × ℕ) × ℕ)) (caches : HashMap ℕ C)
          (r : Reply (T × ℕ)) (h' : Histories ((T × ℕ) × ℕ))
          → new_cache ≡ some fresh
          → Rep fresh h caches
          → specified fresh pass c h ≡ done (r, h')
          → (caches' : HashMap ℕ C) × (serve c caches ≡ done (r, caches')) × Rep fresh h' caches'
      unfolding specified forward_at serve
      step-Rep (start s) h caches r h' new' rep e =
          subst
            (λ (z : Reply (T × ℕ) × Histories ((T × ℕ) × ℕ)).
              (w : HashMap ℕ C) × (serve (start s) caches ≡ done (z.0, w)) × Rep fresh z.1 w)
            (done-injective e)
            ((SharedMap.insert s fresh caches).1, rw new' refl, start-Rep s h caches rep)
      step-Rep (finish s) h caches r h' new' rep e =
          subst
            (λ (z : Reply (T × ℕ) × Histories ((T × ℕ) × ℕ)).
              (w : HashMap ℕ C) × (serve (finish s) caches ≡ done (z.0, w)) × Rep fresh z.1 w)
            (done-injective e) ((SharedMap.remove s caches).1, refl, finish-Rep s h caches rep)
      step-Rep (forward s x) h caches r h' new' rep e = elim (Option-cases (h s)) [
        | inl q ↦ absurd (ground (arith, rw q at e))
        | inr (xs, q) ↦
            let at : get_clone s caches ≡ some (replay fresh pass fresh xs) =
              rep s ∙ ap (Option.map (replay fresh pass fresh)) q in
            subst
              (λ (z : Reply (T × ℕ) × Histories ((T × ℕ) × ℕ)).
                (w : HashMap ℕ C) × (serve (forward s x) caches ≡ done (z.0, w)) × Rep fresh z.1 w)
              (done-injective (rw q at e))
              (
                (SharedMap.insert s (pass x (replay fresh pass fresh xs)).1 caches).1,
                rw at refl,
                forward-Rep s x xs h caches rep,
              )
      ]

      -- Where a new cache can be made, the worker of a Llama model answers every sequence of calls,
      -- of any number of sessions in any order, as the specification does: each `forward` gives what
      -- the layers make of its input with a cache that has seen exactly the inputs of this session
      -- since it started. The specification has no answer for a `forward` of a session that is not
      -- open.
      pub replies-serve :
          (cs : List (Call ((T × ℕ) × ℕ))) (rs : List (Reply (T × ℕ)))
          → new_cache ≡ some fresh
          → replies (specified fresh pass) cs (λ _. none) ≡ done rs
          → replies serve cs SharedMap.new ≡ done rs
      replies-serve cs rs new' e =
          replies-specified fresh pass serve (Rep fresh)
            (λ c h w r h' rep q. step-Rep c h w r h' new' rep q) cs (λ _. none) SharedMap.new rs
            (λ s. get_clone-new s) e
