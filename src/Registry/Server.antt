-- ===== src/Registry/Server.antt =====
-- crates/registry/src/server/mod.rs and the model list of crates/registry/src/lib.rs: the main
-- loop of the registry, one stream event at a time. A channel's sender is a number; what the loop
-- sends is a list of its sends, in order. The web server that feeds the loop is left out.
pub mod Sync
pub mod Reconnect
pub mod Streams
use decentralized_llm_infere.Base.{
  ℕ, String, Option, none, some, List, [], ◌∷◌, ◌++◌, map, ite, Outcome, done, panicked, ◌>>=◌,
  HashMap, get, insert, remove, string_dec, string_key, pair_key,
}
use mathlib.Core.Option
use decentralized_llm_infere.Protocol.Registry.{ToRegistry, ToWorker}
use decentralized_llm_infere.Registry.Sessions.{
  NodeInfo, SessionManager, empty, on_start, on_event, on_end, get_distribution,
}

pub record ModelInfo : Type 0 where
  pub id : String
  pub layers : ℕ
  pub memory : ℕ

-- `SUPPORTED_MODELS`
abbrev pub supported_models : List ModelInfo
supported_models =
    record { id = "llama32-1b"; layers = 16; memory = 3 }
    ∷ record { id = "llama32-3b"; layers = 28; memory = 8 }
    ∷ record { id = "phi3"; layers = 32; memory = 4 }
    ∷ []

unfoldable pub find_model : String → List ModelInfo → Option ModelInfo
find_model id [] = none
find_model id (m ∷ ms) = ite (string_dec m.id id) (some m) (find_model id ms)

unfoldable pub get_model_info : String → Option ModelInfo
unfolding find_model
get_model_info id = find_model id supported_models

pub record SwarmNode (F : Type 0) : Type 0 where
  pub id : String
  pub info : NodeInfo F

pub record ModelSwarmHealth (F : Type 0) : Type 0 where
  pub model : String
  pub total_layers : ℕ
  pub memory : ℕ
  pub nodes : List (SwarmNode F)

pub data StreamEvent (F : Type 0) : Type 0 where
  start : (model node : String) (tx : ℕ) → StreamEvent F
  event : (model node : String) → ToRegistry F → StreamEvent F
  end : (model node : String) → StreamEvent F
  distribution : (model : String) (tx : ℕ) → StreamEvent F
  health : (tx : ℕ) → StreamEvent F

pub data Sent (F : Type 0) : Type 0 where
  to_worker : (tx : ℕ) → ToWorker → Sent F
  to_distribution : (tx : ℕ) → List ℕ → Sent F
  to_health : (tx : ℕ) → List (ModelSwarmHealth F) → Sent F

pub record RegistryServer (F : Type 0) : Type 0 where
  pub models : HashMap String (SessionManager F)
  pub streams_tx : HashMap (String × String) ℕ

module _ {F : Type 0} where
  -- `RegistryServer::new`
  unfoldable pub new : RegistryServer F
  new = record { models = []; streams_tx = [] }

  -- `self.models.entry(model).or_default()`
  unfoldable pub entry : String → RegistryServer F → SessionManager F
  entry model s = Option.get_or (get model s.models) empty

  -- The loop over `pop_out` in the handler of an event; it leaves the queue empty.
  unfoldable pub deliver :
      HashMap (String × String) ℕ → String → List (String × ToWorker) → List (Sent F)
  deliver streams_tx model [] = []
  deliver streams_tx model ((dest, out) ∷ rest) =
      elim (get (model, dest) streams_tx) [ none ↦ [] | some tx ↦ to_worker tx out ∷ [] ]
      ++ deliver streams_tx model rest

  unfoldable pub swarm_health : String × SessionManager F → ModelSwarmHealth F
  swarm_health (model, session) =
      let nodes : List (SwarmNode F) = map (λ e. record { id = e.0; info = e.1 }) session.nodes in
      elim (get_model_info model) [
        | some info ↦ record {
          model = model;
          total_layers = info.layers;
          memory = info.memory;
          nodes = nodes;
        }
        | none ↦ record { model = model; total_layers = 0; memory = 0; nodes = nodes }
      ]

  unfoldable pub recv :
      F → RegistryServer F → StreamEvent F → Outcome (RegistryServer F × List (Sent F))
  recv zero_float s (start model node tx) = done (
    record s {
      streams_tx = insert (model, node) tx s.streams_tx;
      models = insert model (on_start zero_float node (entry model s)) s.models;
    },
    [],
  )
  recv zero_float s (event model node e) = do
    m ← on_event node e (entry model s)
    done (
      record s { models = insert model (record m { events = [] }) s.models },
      deliver s.streams_tx model m.events,
    )
  recv zero_float s (end model node) = done (
    record s {
      streams_tx = remove (model, node) s.streams_tx;
      models = insert model (on_end node (entry model s)) s.models;
    },
    [],
  )
  recv zero_float s (distribution model tx) = do
    counts ← elim (get model s.models) [ none ↦ done [] | some m ↦ get_distribution m ]
    done (s, to_distribution tx counts ∷ [])
  recv zero_float s (health tx) = done (s, to_health tx (map swarm_health s.models) ∷ [])

  -- The main loop over a list of stream events, in the order in which the channel gives them.
  unfoldable pub run :
      F → RegistryServer F → List (StreamEvent F) → Outcome (RegistryServer F × List (Sent F))
  run zero_float s [] = done (s, [])
  run zero_float s (e ∷ es) = do
    r ← recv zero_float s e
    r' ← run zero_float r.0 es
    done (r'.0, r.1 ++ r'.1)
