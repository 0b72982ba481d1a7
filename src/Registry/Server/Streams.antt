-- ===== src/Registry/Server/Streams.antt =====
-- ws of crates/registry/src/server/mod.rs: the task of each web socket, which feeds the main loop. A
-- task goes by the number of its own channel. The channel to the main loop holds any number of events
-- here; where a task has to wait for room, it acts later.
pub mod Tasks
pub mod Serving
pub mod History
pub mod Replaced
use decentralized_llm_infere.Base.{
  ℕ, ◌≡◌, ◌≢◌, String, none, some, List, [], ◌∷◌, ◌++◌, Outcome, done, ◌>>=◌, HashMap, get, insert,
  remove, nat_key,
}
use decentralized_llm_infere.Protocol.Registry.{ToRegistry}
use decentralized_llm_infere.Registry.Server.{
  StreamEvent, start, event, end, distribution, health, RegistryServer, new, recv,
}

pub record System (F : Type 0) : Type 0 where
  pub server : RegistryServer F
  pub queue : List (StreamEvent F)
  pub tasks : HashMap ℕ (String × String)

-- What happens: a web socket is opened, its task reads a message, or ends, which it does where its
-- client is gone or its channel has no sender left; a client asks for the distribution or the health;
-- the main loop takes an event.
pub data Action (F : Type 0) : Type 0 where
  connects : (tx : ℕ) (model node : String) → Action F
  reads : (tx : ℕ) → ToRegistry F → Action F
  ends : (tx : ℕ) → Action F
  asks : (model : String) (tx : ℕ) → Action F
  asks_health : (tx : ℕ) → Action F
  serves : Action F

abbrev pub push : {F : Type 0} → StreamEvent F → System F → System F
push e s = record s { queue = s.queue ++ e ∷ [] }

unfoldable pub started : {F : Type 0} → System F
started = record { server = new; queue = []; tasks = [] }

module _ {F : Type 0} (zero : F) where
  -- `recv` of the main loop, which waits where no event is there.
  abbrev pub serve : List (StreamEvent F) → System F → Outcome (System F)
  serve [] s = done s
  serve (e ∷ rest) s = recv zero s.server e >>= λ r. done (record s { server = r.0; queue = rest })

  unfoldable pub step : Action F → System F → Outcome (System F)
  step (connects tx model node) s =
      done (push (start model node tx) (record s { tasks = insert tx (model, node) s.tasks }))
  step (reads tx e) s = elim (get tx s.tasks) [
    | none ↦ done s
    | some (model, node) ↦ done (push (event model node e) s)
  ]
  step (ends tx) s = elim (get tx s.tasks) [
    | none ↦ done s
    | some (model, node) ↦ done (push (end model node) (record s { tasks = remove tx s.tasks }))
  ]
  step (asks model tx) s = done (push (distribution model tx) s)
  step (asks_health tx) s = done (push (health tx) s)
  step serves s = serve s.queue s

  unfoldable pub run : List (Action F) → System F → Outcome (System F)
  run [] s = done s
  run (a ∷ as') s = step a s >>= λ s'. run as' s'

  -- A web socket gets a channel of its own, and no task of its model and node runs.
  abbrev pub Allowed : Action F → System F → Type 0
  Allowed (connects tx model node) s =
      (get tx s.tasks ≡ none) × ((tx' : ℕ) → get tx' s.tasks ≢ some (model, node))
  Allowed (reads tx e) s = Unit
  Allowed (ends tx) s = Unit
  Allowed (asks model tx) s = Unit
  Allowed (asks_health tx) s = Unit
  Allowed serves s = Unit

  -- All along a history.
  abbrev pub IsAllowed : List (Action F) → System F → Type 0
  IsAllowed [] s = Unit
  IsAllowed (a ∷ as') s = Allowed a s × ((s' : System F) → step a s ≡ done s' → IsAllowed as' s')
