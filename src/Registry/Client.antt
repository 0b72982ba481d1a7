-- ===== src/Registry/Client.antt =====
-- RegistryClient of crates/registry/src/client/mod.rs: the messages that wait to be sent to the
-- registry, and what a message from the registry means. The web socket is left out: `recv` first
-- sends the whole queue, then reads messages until one is an event.
use decentralized_llm_infere.Base.{
  ℕ, Option, none, some, List, [], ◌∷◌, ◌++◌, String, Outcome, done, panicked,
}
use decentralized_llm_infere.Router.{Range}
use decentralized_llm_infere.Protocol.Registry.{Data, ToRegistry, ToWorker, Stats}

pub data RegistryClientEvent : Type 0 where
  answered : (from : String) → (conn : ℕ) → (sdp : String) → RegistryClientEvent
  offered : (from : String) → (conn : ℕ) → (sdp : String) → RegistryClientEvent
  neighbours : List String → RegistryClientEvent

pub record RegistryClient (F : Type 0) : Type 0 where
  pub queue : List (ToRegistry F)

module _ {F : Type 0} where
  abbrev push_back : ToRegistry F → RegistryClient F → RegistryClient F
  push_back e c = record { queue = c.queue ++ e ∷ [] }

  unfoldable pub update_stats : Stats F → RegistryClient F → RegistryClient F
  update_stats stats c = push_back (ToRegistry.stats stats) c

  unfoldable pub update_layer : Range → RegistryClient F → RegistryClient F
  update_layer layers c = push_back (ToRegistry.update layers.start layers.end) c

  unfoldable pub find_neigbours : RegistryClient F → RegistryClient F
  find_neigbours c = push_back ToRegistry.neighbours c

  unfoldable pub offer : String → ℕ → String → RegistryClient F → RegistryClient F
  offer dest conn_id sdp c =
      push_back (ToRegistry.relay dest (some (some (Data.offer conn_id sdp)))) c

  -- `none` stands for `Err`, which `unwrap` panics on.
  unfoldable pub answer : String → ℕ → Option String → RegistryClient F → Outcome (RegistryClient F)
  answer dest conn_id none c = panicked
  answer dest conn_id (some sdp) c =
      done (push_back (ToRegistry.relay dest (some (some (Data.answer conn_id sdp)))) c)

-- The body of the loop of `recv`: `none` where the loop goes on. A list of neighbours in answer to
-- `find_neigbours` is a `todo!()`.
unfoldable pub client_event : ToWorker → Outcome (Option RegistryClientEvent)
client_event (ToWorker.update nodes) = done (some (neighbours nodes))
client_event (ToWorker.neighbours nodes) = panicked
client_event (ToWorker.relay source none) = done none
client_event (ToWorker.relay source (some none)) = done none
client_event (ToWorker.relay source (some (some (Data.offer conn_id sdp)))) =
    done (some (offered source conn_id sdp))
client_event (ToWorker.relay source (some (some (Data.answer conn_id sdp)))) =
    done (some (answered source conn_id sdp))
