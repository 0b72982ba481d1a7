-- ===== src/Router/Expiry.antt =====
-- on_tick and on_disconnected of crates/model-router/src/table.rs: what they take out of the
-- table, and that no route leads over it afterwards.
use decentralized_llm_infere.Base.{
  ℕ, ◌+◌, ◌<◌, ◌≤◌, ◌^◌, ◌≡◌, ◌≢◌, sym, subst, ite, none, some, arith, All-get_elem?,
  get_elem?-map_inv, ◌∙◌, ltb→lt, kept-some, Key, get, get-retain, get-remove, kept, done, u64,
}
use decentralized_llm_infere.Router.{
  Hop, RoutePath, LayerRemotePaths, RouteTable, select_next, on_tick, tick_layer, on_disconnected,
  disconnect_layer, is_fresh, route_timeout_ms, update_best,
}
use decentralized_llm_infere.Router.Best.{LayerIsValid}
use decentralized_llm_infere.Router.Invariant.{IsValid, step-IsValid, ticks, disconnects, step}
use decentralized_llm_infere.Router.Select.{hop-HopIsBest, hop_info}

module _ {Node : Type 0} ⦃key : Key Node⦄ where
  -- A tick keeps exactly the remotes whose last update is recent enough.
  get-tick_layer :
      (now_ms : ℕ) (node : Node) (p : LayerRemotePaths Node)
      → LayerIsValid p
      → get node (tick_layer now_ms p).remotes ≡ kept (is_fresh now_ms) (get node p.remotes)
  unfolding tick_layer update_best
  get-tick_layer now_ms node p v =
      ground (arith, get-retain (is_fresh now_ms) node p.remotes v.uniq)

  get-disconnect_layer :
      (gone node : Node) (p : LayerRemotePaths Node)
      → get node (disconnect_layer gone p).remotes
        ≡ ite (key.dec node gone) none (get node p.remotes)
  unfolding disconnect_layer update_best
  get-disconnect_layer gone node p = ground (arith, get-remove gone node p.remotes)

  module _ (n : ℕ) (small : n < 2 ^ 32) (t : RouteTable Node) (valid : IsValid n t) (l : ℕ)
      (below : l < n) (fits : t.local_layers.end ≤ n) where
    -- Of a valid table of a model with fewer than 2^32 layers, the node's own layers within it:
    -- right after a tick, a route for a layer of the model that hands over goes to a node that was
    -- heard of less than the timeout ago (the sum as the code's u64 addition computes it).
    pub on_tick-route_fresh :
        (now_ms : ℕ) (path : RoutePath Node) (h : Hop Node)
        → select_next n (on_tick now_ms t) l ≡ done (some path)
        → path.remote ≡ some h
        → now_ms < u64 (h.last_updated + route_timeout_ms)
    unfolding on_tick
    on_tick-route_fresh now_ms path h e r =
        let (q, at, best) =
          hop-HopIsBest n small (on_tick now_ms t)
            (unfold step in step-IsValid n t (ticks now_ms) valid) l below fits path h e r in
        let (p, at', same) = get_elem?-map_inv (tick_layer now_ms) t.remote_layers _ at in
        let old =
          get-tick_layer now_ms h.dest p (All-get_elem? LayerIsValid _ _ valid.layers at') in
        let held = subst (λ x. get h.dest x.remotes ≡ some (hop_info h)) same best.held in
        ltb→lt now_ms _
          (kept-some (is_fresh now_ms) (get h.dest p.remotes) {v = hop_info h} (sym old ∙ held)).1

    -- Of a valid table of a model with fewer than 2^32 layers, the node's own layers within it:
    -- right after a node disconnects, no route for a layer of the model hands over to it.
    pub on_disconnected-route_ne :
        (gone : Node) (path : RoutePath Node) (h : Hop Node)
        → select_next n (on_disconnected gone t) l ≡ done (some path)
        → path.remote ≡ some h
        → h.dest ≢ gone
    unfolding on_disconnected
    on_disconnected-route_ne gone path h e r is_gone =
        let (q, at, best) =
          hop-HopIsBest n small (on_disconnected gone t)
            (unfold step in step-IsValid n t (disconnects gone) valid) l below fits path h e r in
        let (p, at', same) = get_elem?-map_inv (disconnect_layer gone) t.remote_layers _ at in
        let held = subst (λ x. get h.dest x.remotes ≡ some (hop_info h)) same best.held in
        ground (arith, get-disconnect_layer gone h.dest p)

  -- What the two operations leave of each layer of a valid table: a tick drops exactly the
  -- remotes whose last update is too old, a disconnection exactly the entries of that node.
  pub get-tick_disconnect :
      (now_ms : ℕ) (gone node : Node) (p : LayerRemotePaths Node)
      → LayerIsValid p
      → (get node (tick_layer now_ms p).remotes ≡ kept (is_fresh now_ms) (get node p.remotes))
        × (get node (disconnect_layer gone p).remotes
            ≡ ite (key.dec node gone) none (get node p.remotes))
  get-tick_disconnect now_ms gone node p v =
      (get-tick_layer now_ms node p v, get-disconnect_layer gone node p)
