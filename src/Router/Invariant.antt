-- ===== src/Router/Invariant.antt =====
-- The invariant of the route table of crates/model-router/src/table.rs over any history of
-- ticks, disconnections and route syncs.
use decentralized_llm_infere.Base.{
  ℕ, zero, suc, ◌≡◌, refl, none, Option, List, [], ◌∷◌, map, arith, length, replicate, All,
  length-map, Key, ap, get,
}
use decentralized_llm_infere.Router.{
  Range, LayerRemoteInfo, LayerRemotePaths, RouteSync, RouteTable, new, tick_layer, on_tick,
  disconnect_layer, on_disconnected, sync_layers, apply_sync,
}
use decentralized_llm_infere.Router.Best.{
  LayerIsValid, tick_layer-LayerIsValid, disconnect_layer-LayerIsValid, sync_layer-LayerIsValid,
}

-- What happens to a table: the calls that `WorkerCommunication::recv` makes.
pub data Call (Node : Type 0) : Type 0 where
  ticks : ℕ → Call Node
  disconnects : Node → Call Node
  syncs : Node → ℕ → RouteSync → Call Node

module _ {Node : Type 0} ⦃key : Key Node⦄ where
  unfoldable pub step : RouteTable Node → Call Node → RouteTable Node
  step t (ticks now_ms) = on_tick now_ms t
  step t (disconnects node) = on_disconnected node t
  step t (syncs from rtt sync) = apply_sync from rtt sync t

  unfoldable pub run : RouteTable Node → List (Call Node) → RouteTable Node
  unfolding step
  run t [] = t
  run t (c ∷ cs) = run (step t c) cs

  -- One entry for each layer of the model, each with a cheapest next hop.
  pub record IsValid (model_layers : ℕ) (t : RouteTable Node) : Type 0 where
    pub sized : length t.remote_layers ≡ model_layers
    pub layers : All LayerIsValid t.remote_layers

  All-map_keeps :
      (f : LayerRemotePaths Node → LayerRemotePaths Node)
      → ((p : LayerRemotePaths Node) → LayerIsValid p → LayerIsValid (f p))
      → (ps : List (LayerRemotePaths Node)) → All LayerIsValid ps
      → All LayerIsValid (map f ps)
  All-map_keeps f h [] v = tt
  All-map_keeps f h (p ∷ ps) v = (h p v.0, All-map_keeps f h ps v.1)

  new-IsValid : (model_layers : ℕ) (local : Range) → IsValid model_layers (new model_layers local)
  unfolding new get
  new-IsValid model_layers local = record {
    sized = sized model_layers;
    layers = empty model_layers;
  }
    where
      empty_layer : LayerRemotePaths Node
      empty_layer = record { remotes = []; next = none }

      sized : (n : ℕ) → length (replicate n empty_layer) ≡ n
      sized zero = refl
      sized (suc n) = ap suc (sized n)

      empty : (n : ℕ) → All LayerIsValid (replicate n empty_layer)
      empty zero = tt
      empty (suc n) = (record { uniq = tt; best = λ node. refl }, empty n)

  sync_layers-All :
      (from : Node) (rtt : ℕ) (ls : List (Option LayerRemoteInfo))
      (ps : List (LayerRemotePaths Node))
      → All LayerIsValid ps
      → All LayerIsValid (sync_layers from rtt ls ps)
  unfolding sync_layers
  sync_layers-All from rtt ls [] v = tt
  sync_layers-All from rtt [] (p ∷ ps) v =
      (sync_layer-LayerIsValid from rtt none p v.0, sync_layers-All from rtt [] ps v.1)
  sync_layers-All from rtt (l ∷ ls) (p ∷ ps) v =
      (sync_layer-LayerIsValid from rtt l p v.0, sync_layers-All from rtt ls ps v.1)

  length-sync_layers :
      (from : Node) (rtt : ℕ) (ls : List (Option LayerRemoteInfo))
      (ps : List (LayerRemotePaths Node))
      → length (sync_layers from rtt ls ps) ≡ length ps
  unfolding sync_layers
  length-sync_layers from rtt ls [] = refl
  length-sync_layers from rtt [] (p ∷ ps) = ap suc (length-sync_layers from rtt [] ps)
  length-sync_layers from rtt (l ∷ ls) (p ∷ ps) = ap suc (length-sync_layers from rtt ls ps)

  pub step-IsValid :
      (model_layers : ℕ) (t : RouteTable Node) (c : Call Node)
      → IsValid model_layers t
      → IsValid model_layers (step t c)
  unfolding step on_tick on_disconnected apply_sync
  step-IsValid n t (ticks now_ms) v = record {
    sized = omega (arith, length-map (tick_layer now_ms) t.remote_layers, v.sized);
    layers = All-map_keeps (tick_layer now_ms) (tick_layer-LayerIsValid now_ms) _ v.layers;
  }
  step-IsValid n t (disconnects node) v = record {
    sized = omega (arith, length-map (disconnect_layer node) t.remote_layers, v.sized);
    layers = All-map_keeps (disconnect_layer node) (disconnect_layer-LayerIsValid node) _ v.layers;
  }
  step-IsValid n t (syncs from rtt sync) v = record {
    sized = omega (arith, length-sync_layers from rtt sync.layers t.remote_layers, v.sized);
    layers = sync_layers-All from rtt sync.layers t.remote_layers v.layers;
  }

  run-IsValid :
      (n : ℕ) (t : RouteTable Node) (cs : List (Call Node)) → IsValid n t → IsValid n (run t cs)
  unfolding run
  run-IsValid n t [] v = v
  run-IsValid n t (c ∷ cs) v = run-IsValid n (step t c) cs (step-IsValid n t c v)

  -- After any history of ticks, disconnections and syncs, the table of a new node has one entry
  -- for each layer of the model, and the next hop of each layer is an entry of that layer's
  -- remotes of the lowest cost; a layer with no next hop has no remotes.
  pub run-new-IsValid :
      (model_layers : ℕ) (local : Range) (cs : List (Call Node))
      → IsValid model_layers (run (new model_layers local) cs)
  run-new-IsValid n local cs = run-IsValid n (new n local) cs (new-IsValid n local)
