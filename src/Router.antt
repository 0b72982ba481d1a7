-- ===== src/Router.antt =====
-- crates/model-router/src/table.rs: the route table of a node, and its operations.
-- An array `[_; MODEL_LAYERS]` is a list, `Range<u32>` a record of its two ends. What the code
-- logs is left out. Unsigned arithmetic wraps, as in a release build.
pub mod Best
pub mod Invariant
pub mod Select
pub mod Expiry
pub mod Exchange
use decentralized_llm_infere.Base.{
  ℕ, zero, suc, ◌+◌, Bool, not, ◌&&◌, Option, none, some, List, [], ◌∷◌, map, length, get_elem?,
  replicate, ltb, leb, ◌==◌, if◌then◌else◌, u32, u64, Outcome, done, panicked, ◌>>=◌, expect, Key,
  HashMap, get, insert, remove, retain, contains_key,
}
use mathlib.Core.Option

-- `ROUTE_TIMEOUT_MS`
abbrev pub route_timeout_ms : ℕ
route_timeout_ms = 5000

-- `std::ops::Range<u32>`
pub record Range : Type 0 where
  pub start : ℕ
  pub end : ℕ

abbrev pub contains : Range → ℕ → Bool
contains r i = leb r.start i && ltb i r.end

pub record LayerRemoteInfo : Type 0 where
  pub cost : ℕ
  pub last_updated : ℕ

pub record RouteSync : Type 0 where
  pub layers : List (Option LayerRemoteInfo)

-- The destination of the second half of a route: node, layers, cost and time of the last update.
pub record Hop (Node : Type 0) : Type 0 where
  pub dest : Node
  pub layers : Range
  pub cost : ℕ
  pub last_updated : ℕ

pub record RoutePath (Node : Type 0) : Type 0 where
  pub local : Option Range
  pub remote : Option (Hop Node)

pub record LayerRemotePaths (Node : Type 0) : Type 0 where
  pub remotes : HashMap Node LayerRemoteInfo
  pub next : Option (Node × LayerRemoteInfo)

pub record RouteTable (Node : Type 0) : Type 0 where
  pub remote_layers : List (LayerRemotePaths Node)
  pub local_layers : Range

-- The condition of `retain` in `on_tick`.
abbrev pub is_fresh : ℕ → LayerRemoteInfo → Bool
is_fresh now_ms info = ltb now_ms (u64 (info.last_updated + route_timeout_ms))

module _ {Node : Type 0} where
  -- `RoutePath::cost` and `RoutePath::last_updated`
  unfoldable pub path_cost : RoutePath Node → ℕ
  path_cost p = elim p.remote [ none ↦ 0 | some hop ↦ hop.cost ]

  unfoldable pub path_last_updated : RoutePath Node → Option ℕ
  path_last_updated p = elim p.remote [ none ↦ none | some hop ↦ some hop.last_updated ]

  -- What `create_sync` says of a route.
  abbrev pub advertise : ℕ → RoutePath Node → LayerRemoteInfo
  advertise now_ms p = record {
    cost = path_cost p;
    last_updated = Option.get_or (path_last_updated p) now_ms;
  }

  -- `Iterator::min_by` on the cost: of equal entries the first one stays.
  abbrev cheaper : Node × LayerRemoteInfo → Node × LayerRemoteInfo → Node × LayerRemoteInfo
  cheaper a b = if leb a.1.cost b.1.cost then a else b

  min_from : Node × LayerRemoteInfo → HashMap Node LayerRemoteInfo → Node × LayerRemoteInfo
  min_from best [] = best
  min_from best (e ∷ m) = min_from (cheaper best e) m

  unfoldable pub min_by_cost : HashMap Node LayerRemoteInfo → Option (Node × LayerRemoteInfo)
  unfolding min_from
  min_by_cost [] = none
  min_by_cost (e ∷ m) = some (min_from e m)

  unfoldable pub update_best : LayerRemotePaths Node → LayerRemotePaths Node
  update_best p = record p { next = min_by_cost p.remotes }

  -- `RouteTable::new`
  unfoldable pub new : (model_layers : ℕ) → Range → RouteTable Node
  new model_layers local_layers = record {
    remote_layers = replicate model_layers (record { remotes = []; next = none });
    local_layers = local_layers;
  }

  -- The body of the loop of `on_tick`.
  unfoldable pub tick_layer : ℕ → LayerRemotePaths Node → LayerRemotePaths Node
  tick_layer now_ms p =
      let kept = retain (is_fresh now_ms) p.remotes in
      let p' = record p { remotes = kept } in
      if length kept == length p.remotes then p' else update_best p'

  unfoldable pub on_tick : ℕ → RouteTable Node → RouteTable Node
  on_tick now_ms t = record t { remote_layers = map (tick_layer now_ms) t.remote_layers }

module _ {Node : Type 0} ⦃key : Key Node⦄ where
  -- The body of the loop of `on_disconnected`.
  unfoldable pub disconnect_layer : Node → LayerRemotePaths Node → LayerRemotePaths Node
  disconnect_layer node p =
      let p' = record p { remotes = remove node p.remotes } in
      if contains_key node p.remotes then update_best p' else p'

  unfoldable pub on_disconnected : Node → RouteTable Node → RouteTable Node
  on_disconnected node t = record t { remote_layers = map (disconnect_layer node) t.remote_layers }

  -- The body of the loop of `apply_sync`: `sync.layers.get(layer)` is `none` past the end, which
  -- the code treats as a layer that is not served.
  unfoldable pub sync_layer :
      Node → ℕ → Option LayerRemoteInfo → LayerRemotePaths Node → LayerRemotePaths Node
  sync_layer from rtt none p = update_best (record p { remotes = remove from p.remotes })
  sync_layer from rtt (some info) p =
      update_best (record p {
        remotes = insert from (record info { cost = u32 (info.cost + rtt) }) p.remotes;
      })

  unfoldable pub sync_layers :
      Node
      → ℕ
      → List (Option LayerRemoteInfo)
      → List (LayerRemotePaths Node)
      → List (LayerRemotePaths Node)
  sync_layers from rtt layers [] = []
  sync_layers from rtt [] (p ∷ ps) = sync_layer from rtt none p ∷ sync_layers from rtt [] ps
  sync_layers from rtt (l ∷ ls) (p ∷ ps) = sync_layer from rtt l p ∷ sync_layers from rtt ls ps

  unfoldable pub apply_sync : Node → ℕ → RouteSync → RouteTable Node → RouteTable Node
  apply_sync from rtt sync t = record t {
    remote_layers = sync_layers from rtt sync.layers t.remote_layers;
  }

module _ {Node : Type 0} (model_layers : ℕ) where
  -- The remote half of a route: the best next hop of a layer. Indexing past the end panics.
  unfoldable pub hop_from : RouteTable Node → ℕ → Outcome (Option (Hop Node))
  hop_from t layer = do
    p ← expect (get_elem? t.remote_layers layer)
    done (
        Option.map
          (λ best. record {
            dest = best.0;
            layers = record { start = layer; end = u32 model_layers };
            cost = best.1.cost;
            last_updated = best.1.last_updated;
          })
          p.next)

  unfoldable pub select_next : RouteTable Node → ℕ → Outcome (Option (RoutePath Node))
  select_next t next_layer =
      if contains t.local_layers next_layer
      then (if t.local_layers.end == u32 model_layers
          then done (
              some (record {
                local = some (record { start = next_layer; end = u32 model_layers });
                remote = none;
              }))
          else (hop_from t t.local_layers.end >>= λ hop. done (
              Option.map
                (λ h. record {
                  local = some (record { start = next_layer; end = t.local_layers.end });
                  remote = some h;
                })
                hop)))
      else (hop_from t next_layer >>= λ hop.
          done (Option.map (λ h. record { local = none; remote = some h }) hop))

  -- `RouteTable::ready`
  unfoldable pub ready : RouteTable Node → Outcome Bool
  ready t = do path ← select_next t 0; done (elim path [ none ↦ Bool.false | some _ ↦ Bool.true ])

  -- The loop of `create_sync` over the layers from `layer` on, `count` of them.
  unfoldable pub sync_from : RouteTable Node → ℕ → ℕ → ℕ → Outcome (List (Option LayerRemoteInfo))
  sync_from t now_ms layer zero = done []
  sync_from t now_ms layer (suc count) = do
    path ← select_next t layer
    rest ← sync_from t now_ms (suc layer) count
    done (Option.map (advertise now_ms) path ∷ rest)

  unfoldable pub create_sync : RouteTable Node → ℕ → Outcome RouteSync
  create_sync t now_ms = do
    layers ← sync_from t now_ms 0 model_layers
    done (record { layers = layers })
