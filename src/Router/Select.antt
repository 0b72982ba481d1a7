-- ===== src/Router/Select.antt =====
-- select_next of crates/model-router/src/table.rs: what a route covers, and that it is cheapest.
use decentralized_llm_infere.Base.{
  ℕ, ◌<◌, ◌≤◌, ◌^◌, ◌≡◌, refl, inl, inr, Bool-cases, true, false, Option, none, some, arith,
  get_elem?, get_elem?_below, All-get_elem?, Key, get, ◌==◌, if◌then◌else◌, done, u32,
}
use decentralized_llm_infere.Router.{
  Range, Hop, LayerRemoteInfo, RoutePath, LayerRemotePaths, RouteTable, contains, hop_from,
  select_next,
}
use decentralized_llm_infere.Router.Best.{Cheapest, IsBest, LayerIsValid}
use decentralized_llm_infere.Router.Invariant.{IsValid}

module _ {Node : Type 0} where
  -- The first layer from `next_layer` on that the node does not serve itself.
  abbrev pub boundary : RouteTable Node → ℕ → ℕ
  boundary t l = if contains t.local_layers l then t.local_layers.end else l

  -- What a hop says of its destination.
  abbrev pub hop_info : Hop Node → LayerRemoteInfo
  hop_info h = record { cost = h.cost; last_updated = h.last_updated }

  -- The two halves of a route follow one another, from `first` to the model's last layer.
  abbrev pub Covers : ℕ → ℕ → Option Range → Option (Hop Node) → Type 0
  Covers n first none none = ⊥
  Covers n first (some r) none = (r.start ≡ first) × (r.end ≡ n)
  Covers n first none (some h) = (h.layers.start ≡ first) × (h.layers.end ≡ n)
  Covers n first (some r) (some h) =
      (r.start ≡ first) × (h.layers.start ≡ r.end) × (h.layers.end ≡ n)

module _ {Node : Type 0} ⦃key : Key Node⦄ where
  -- The hop is a cheapest entry of the layer at which it takes over.
  abbrev pub HopIsBest : RouteTable Node → Option (Hop Node) → Type 0
  HopIsBest t none = Unit
  HopIsBest t (some h) =
      (p : LayerRemotePaths Node) × (get_elem? t.remote_layers h.layers.start ≡ some p)
      × Cheapest p.remotes (h.dest, hop_info h)

  abbrev pub Answers : ℕ → RouteTable Node → ℕ → Option (RoutePath Node) → Type 0
  Answers n t l none =
      (p : LayerRemotePaths Node) × (get_elem? t.remote_layers (boundary t l) ≡ some p)
      × ((node : Node) → get node p.remotes ≡ none)
  Answers n t l (some path) = Covers n l path.local path.remote × HopIsBest t path.remote

  abbrev HopAnswers : ℕ → RouteTable Node → ℕ → Option (Hop Node) → Type 0
  HopAnswers n t l none =
      (p : LayerRemotePaths Node) × (get_elem? t.remote_layers l ≡ some p)
      × ((node : Node) → get node p.remotes ≡ none)
  HopAnswers n t l (some h) = (h.layers.start ≡ l) × (h.layers.end ≡ n) × HopIsBest t (some h)

  module _ (n : ℕ) (small : n < 2 ^ 32) (t : RouteTable Node) (valid : IsValid n t) where
    hop_from-HopAnswers :
        (l : ℕ) (p : LayerRemotePaths Node) (next : Option (Node × LayerRemoteInfo))
        → get_elem? t.remote_layers l ≡ some p
        → p.next ≡ next
        → IsBest p.remotes next
        → (h : Option (Hop Node)) × (hop_from n t l ≡ done h) × HopAnswers n t l h
    unfolding hop_from
    hop_from-HopAnswers l p none e q b = (none, ground arith, (p, e, b))
    hop_from-HopAnswers l p (some best) e q b = (
      some (record {
        dest = best.0;
        layers = record { start = l; end = u32 n };
        cost = best.1.cost;
        last_updated = best.1.last_updated;
      }),
      ground arith,
      (refl, omega arith, (p, e, b)),
    )

    hop_from_lem :
        (l : ℕ) → l < n → (h : Option (Hop Node)) × (hop_from n t l ≡ done h) × HopAnswers n t l h
    hop_from_lem l below =
        let (p, e) = get_elem?_below t.remote_layers l (omega (arith, valid.sized)) in
        hop_from-HopAnswers l p p.next e refl
          (All-get_elem? LayerIsValid t.remote_layers l valid.layers e).best

    abbrev Selects : ℕ → Type 0
    Selects l =
        (path : Option (RoutePath Node)) × (select_next n t l ≡ done path) × Answers n t l path

    served_locally :
        (l : ℕ) (h : Option (Hop Node))
        → contains t.local_layers l ≡ true
        → (t.local_layers.end == u32 n) ≡ false
        → hop_from n t t.local_layers.end ≡ done h
        → HopAnswers n t t.local_layers.end h
        → Selects l
    unfolding select_next
    served_locally l none served more e a = (none, ground arith, (a.0, rw served a.1, a.2))
    served_locally l (some h) served more e a = (
      some (record {
        local = some (record { start = l; end = t.local_layers.end });
        remote = some h;
      }),
      ground arith,
      ((refl, a.0, a.1), a.2),
    )

    served_remotely :
        (l : ℕ) (h : Option (Hop Node))
        → contains t.local_layers l ≡ false
        → hop_from n t l ≡ done h
        → HopAnswers n t l h
        → Selects l
    unfolding select_next
    served_remotely l none away e a = (none, ground arith, (a.0, rw away a.1, a.2))
    served_remotely l (some h) away e a =
        (some (record { local = none; remote = some h }), ground arith, ((a.0, a.1), a.2))

    -- On a valid table of a model with fewer than 2^32 layers, the node's own layers within it,
    -- `select_next` does not panic for a layer of the model. A route covers the layers from the
    -- asked one to the last without a gap, and hands over to a cheapest remote of the layer at
    -- which the node's own layers stop; when there is no route, no remote serves that layer.
    pub select_next-Answers :
        (l : ℕ)
        → l < n
        → t.local_layers.end ≤ n
        → (path : Option (RoutePath Node)) × (select_next n t l ≡ done path) × Answers n t l path
    unfolding select_next
    select_next-Answers l below fits = elim (Bool-cases (contains t.local_layers l)) [
      | inl served ↦ elim (Bool-cases (t.local_layers.end == u32 n)) [
        | inl last ↦ (
          some (record { local = some (record { start = l; end = u32 n }); remote = none }),
          ground arith,
          ((refl, omega arith), tt),
        )
        | inr more ↦
            let (h, e, a) = hop_from_lem t.local_layers.end (ground arith) in
            served_locally l h served more e a
      ]
      | inr away ↦ let (h, e, a) = hop_from_lem l below in served_remotely l h away e a
    ]

    -- What a route that hands over says of the table.
    pub hop-HopIsBest :
        (l : ℕ)
        → l < n
        → t.local_layers.end ≤ n
        → (path : RoutePath Node) (h : Hop Node) → select_next n t l ≡ done (some path)
        → path.remote ≡ some h
        → HopIsBest t (some h)
    hop-HopIsBest l below fits path h e r =
        let (found, e', a) = select_next-Answers l below fits in
        let same : found ≡ some path = cc in rw r at (rw same at a).1
