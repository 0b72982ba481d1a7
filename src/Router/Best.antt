-- ===== src/Router/Best.antt =====
-- update_best of crates/model-router/src/table.rs: `next` of a layer is a cheapest entry of its
-- remotes, and every operation on a layer keeps it so.
use decentralized_llm_infere.Base.{
  ◌==◌, contains_key, get-eq-none, ℕ, ◌≤◌, ◌≡◌, leb, Bool-cases, refl, inl, inr, Option, none, some,
  [], ◌∷◌, arith, Key, HashMap, get, Uniq, insert-Uniq, remove-Uniq, retain-Uniq, retain_all,
  retain, length, remove, remove_absent, get_second, get_behind, get-tail_none, get_self,
}
use decentralized_llm_infere.Router.{
  LayerRemoteInfo, LayerRemotePaths, min_by_cost, min_from, cheaper, update_best, tick_layer,
  disconnect_layer, sync_layer, is_fresh,
}

module _ {Node : Type 0} ⦃key : Key Node⦄ where
  -- A cheapest entry: the map holds it, and no node of the map offers a lower cost.
  pub record Cheapest (m : HashMap Node LayerRemoteInfo) (best : Node × LayerRemoteInfo)
      : Type 0 where
    pub held : get best.0 m ≡ some best.1
    pub least :
        (node : Node) (info : LayerRemoteInfo) → get node m ≡ some info → best.1.cost ≤ info.cost

  abbrev pub IsBest : HashMap Node LayerRemoteInfo → Option (Node × LayerRemoteInfo) → Type 0
  IsBest m none = (node : Node) → get node m ≡ none
  IsBest m (some best) = Cheapest m best

  pub record LayerIsValid (p : LayerRemotePaths Node) : Type 0 where
    pub uniq : Uniq p.remotes
    pub best : IsBest p.remotes p.next

  min_from-le-best :
      (best : Node × LayerRemoteInfo) (m : HashMap Node LayerRemoteInfo)
      → (min_from best m).1.cost ≤ best.1.cost
  unfolding min_from
  min_from-le-best best [] = omega arith
  min_from-le-best best (e ∷ m) = ground (arith, min_from-le-best (cheaper best e) m)

  min_from-le :
      (best : Node × LayerRemoteInfo) (m : HashMap Node LayerRemoteInfo) (node : Node)
      (info : LayerRemoteInfo)
      → get node m ≡ some info
      → (min_from best m).1.cost ≤ info.cost
  unfolding min_from get
  min_from-le best [] node info h = absurd (cc)
  min_from-le best (e ∷ m) node info h =
      ground (arith, min_from-le (cheaper best e) m node info, min_from-le-best (cheaper best e) m)

  min_from_held :
      (best : Node × LayerRemoteInfo) (m : HashMap Node LayerRemoteInfo)
      → Uniq (best ∷ m)
      → get (min_from best m).0 (best ∷ m) ≡ some (min_from best m).1
  unfolding min_from
  min_from_held best [] u = ground (arith, get_self best.0 best.1 [])
  min_from_held best (e ∷ m) u = elim (Bool-cases (leb best.1.cost e.1.cost)) [
    | inl h ↦
        rw (h, min_from)
          (get_second _ best.0 e.0 best.1 e.1 m u.1.0
            (min_from_held best m (get-tail_none best.0 e.0 e.1 m u.0, u.1.1)))
    | inr h ↦ rw (h, min_from) (get_behind _ best.0 best.1 (e ∷ m) u.0 (min_from_held e m u.1))
  ]

  min_by_cost-IsBest : (m : HashMap Node LayerRemoteInfo) → Uniq m → IsBest m (min_by_cost m)
  unfolding min_by_cost get
  min_by_cost-IsBest [] u = λ node. refl
  min_by_cost-IsBest (e ∷ m) u = record {
    held = min_from_held e m u;
    least = λ node info h. ground (arith, min_from-le e m node info, min_from-le-best e m);
  }

  update_best-LayerIsValid :
      (p : LayerRemotePaths Node) → Uniq p.remotes → LayerIsValid (update_best p)
  unfolding update_best
  update_best-LayerIsValid p u = record { uniq = u; best = min_by_cost-IsBest p.remotes u }

  pub tick_layer-LayerIsValid :
      (now_ms : ℕ) (p : LayerRemotePaths Node) → LayerIsValid p → LayerIsValid (tick_layer now_ms p)
  unfolding tick_layer
  tick_layer-LayerIsValid now_ms p v = elim (Bool-cases (length kept == length p.remotes)) [
    | inl same ↦ rw (same, tick_layer, retain_all (is_fresh now_ms) p.remotes (ground arith)) v
    | inr fewer ↦
        rw (fewer, tick_layer)
          (update_best-LayerIsValid (record p { remotes = kept })
            (retain-Uniq (is_fresh now_ms) p.remotes v.uniq))
  ]
    where
      kept : HashMap Node LayerRemoteInfo
      kept = retain (is_fresh now_ms) p.remotes

  pub disconnect_layer-LayerIsValid :
      (node : Node) (p : LayerRemotePaths Node)
      → LayerIsValid p
      → LayerIsValid (disconnect_layer node p)
  unfolding disconnect_layer
  disconnect_layer-LayerIsValid node p v = elim (Bool-cases (contains_key node p.remotes)) [
    | inl known ↦
        rw (known, disconnect_layer)
          (update_best-LayerIsValid (record p { remotes = remove node p.remotes })
            (remove-Uniq node p.remotes v.uniq))
    | inr unknown ↦
        rw
          (
            unknown,
            disconnect_layer,
            remove_absent node p.remotes (get-eq-none node p.remotes unknown),
          )
          v
  ]

  pub sync_layer-LayerIsValid :
      (from : Node) (rtt : ℕ) (info : Option LayerRemoteInfo) (p : LayerRemotePaths Node)
      → LayerIsValid p
      → LayerIsValid (sync_layer from rtt info p)
  unfolding sync_layer
  sync_layer-LayerIsValid from rtt none p v =
      update_best-LayerIsValid _ (remove-Uniq from p.remotes v.uniq)
  sync_layer-LayerIsValid from rtt (some info) p v =
      update_best-LayerIsValid _ (insert-Uniq from _ p.remotes v.uniq)
