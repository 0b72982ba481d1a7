-- ===== src/Registry/Sessions.antt =====
-- crates/registry/src/server/session_manager.rs: the nodes of one model, and the messages that
-- wait to be sent to them. A NodeId is its text.
pub mod Distribution
pub mod Events
use decentralized_llm_infere.Base.{
  ℕ, zero, suc, ◌+◌, ◌-◌, String, Bool, Option, none, some, List, [], ◌∷◌, ◌++◌, map, ltb,
  if◌then◌else◌, ite, Outcome, done, panicked, ◌>>=◌, expect, HashMap, get, insert, remove, keys,
  values, contains_key, replicate, string_dec, string_key,
}
use decentralized_llm_infere.Router.{Range}
use decentralized_llm_infere.Protocol.Registry.{ToRegistry, ToWorker, Stats, no_stats}

pub record NodeInfo (F : Type 0) : Type 0 where
  pub layers : Option Range
  pub stats : Stats F

pub record SessionManager (F : Type 0) : Type 0 where
  pub nodes : HashMap String (NodeInfo F)
  pub events : List (String × ToWorker)

-- The keys but one, in the order of the map.
unfoldable pub others : String → List String → List String
others node [] = []
others node (n ∷ ns) = ite (string_dec n node) (others node ns) (n ∷ others node ns)

-- `layers[layer] += 1`
unfoldable pub count_layer : List ℕ → ℕ → Outcome (List ℕ)
count_layer [] layer = panicked
count_layer (c ∷ cs) zero = done (suc c ∷ cs)
count_layer (c ∷ cs) (suc layer) = count_layer cs layer >>= λ cs'. done (c ∷ cs')

-- `for layer in node_layers.clone()`, from `layer` on with `count` rounds left.
unfoldable pub count_layers : List ℕ → ℕ → ℕ → Outcome (List ℕ)
count_layers counts layer zero = done counts
count_layers counts layer (suc count) =
    count_layer counts layer >>= λ counts'. count_layers counts' (suc layer) count

-- The number of layers in a range; one whose ends are swapped is empty.
abbrev pub range_len : Range → ℕ
range_len r = r.end - r.start

module _ {F : Type 0} where
  -- `SessionManager::default()`
  unfoldable pub empty : SessionManager F
  empty = record { nodes = []; events = [] }

  -- The first loop of `get_distribution`.
  unfoldable pub max_layer : ℕ → List (NodeInfo F) → ℕ
  max_layer m [] = m
  max_layer m (info ∷ infos) =
      max_layer (elim info.layers [ none ↦ m | some r ↦ if ltb m r.end then r.end else m ]) infos

  -- The second one.
  unfoldable pub count_nodes : List ℕ → List (NodeInfo F) → Outcome (List ℕ)
  count_nodes counts [] = done counts
  count_nodes counts (info ∷ infos) =
      elim info.layers [ none ↦ done counts | some r ↦ count_layers counts r.start (range_len r) ]
      >>= λ counts'. count_nodes counts' infos

  unfoldable pub get_distribution : SessionManager F → Outcome (List ℕ)
  get_distribution s = count_nodes (replicate (max_layer 0 (values s.nodes)) 0) (values s.nodes)

  unfoldable pub on_start : F → String → SessionManager F → SessionManager F
  on_start zero_float node s = record s {
    nodes = insert node (record { layers = none; stats = no_stats zero_float }) s.nodes;
  }

  unfoldable pub on_end : String → SessionManager F → SessionManager F
  on_end node s = record s { nodes = remove node s.nodes }

  abbrev push_back : SessionManager F → String → ToWorker → SessionManager F
  push_back s node event = record s { events = s.events ++ (node, event) ∷ [] }

  unfoldable pub on_event : String → ToRegistry F → SessionManager F → Outcome (SessionManager F)
  on_event node (ToRegistry.update from_layer to_layer) s = do
    info ← expect (get node s.nodes)
    let layers = some (record { start = from_layer; end = to_layer })
    let nodes = insert node (record info { layers = layers }) s.nodes
    done (push_back (record s { nodes = nodes }) node (ToWorker.update (others node (keys nodes))))
  on_event node ToRegistry.neighbours s =
      done (push_back s node (ToWorker.neighbours (others node (keys s.nodes))))
  on_event node (ToRegistry.relay dest content) s =
      if contains_key dest s.nodes
      then done (push_back s dest (ToWorker.relay node content))
      else done s
  on_event node (ToRegistry.stats stats) s = do
    info ← expect (get node s.nodes)
    done (record s { nodes = insert node (record info { stats = stats }) s.nodes })

  unfoldable pub pop_out : SessionManager F → Option (String × ToWorker) × SessionManager F
  pop_out s = elim s.events [ [] ↦ (none, s) | e ∷ rest ↦ (some e, record s { events = rest }) ]
