-- ===== src/Tests/Registry.antt =====
-- Small swarms: the theorems on crates/registry at concrete inputs.
use decentralized_llm_infere.Base.{
  ℕ, ◌<◌, ◌≡◌, ◌↔◌, ◌^◌, refl, String, true, false, none, some, List, [], ◌∷◌, ◌++◌, arith, done,
  panicked, get, insert, contains_key, string_dec, string_key,
}
use decentralized_llm_infere.Protocol.Registry.{ToRegistry, ToWorker, no_stats}
use decentralized_llm_infere.Registry.Selection.{LayerSelectionRes, select_layers}
use decentralized_llm_infere.Registry.Selection.Windows.{sum}
use decentralized_llm_infere.Registry.Selection.Gaps.{Chosen, select_layers-Chosen}
use decentralized_llm_infere.Registry.Sessions.{NodeInfo, SessionManager, others, on_event}
use decentralized_llm_infere.Registry.Sessions.Events.{
  needs_node, on_event_panics_iff, on_event-Queued, Queued,
}
use decentralized_llm_infere.Registry.Server.{start, Sent, RegistryServer, new, recv}
use decentralized_llm_infere.Registry.Server.Sync.{Follows, recv-Follows, new-IsSynced}

-- How many nodes serve each of four layers.
abbrev counts : List ℕ
counts = 2 ∷ 0 ∷ 1 ∷ 3 ∷ []

counts-total : sum counts < 2 ^ 64
unfolding sum
counts-total = omega arith

select_layers-Chosen_example :
    (res : LayerSelectionRes) × (select_layers counts 2 ≡ done res) × Chosen counts 2 res
select_layers-Chosen_example =
    select_layers-Chosen counts 2 (omega arith) (omega arith) counts-total

abbrev idle : NodeInfo ℕ
idle = record { layers = none; stats = no_stats 0 }

abbrev serving : NodeInfo ℕ
serving = record { layers = some (record { start = 1; end = 3 }); stats = no_stats 0 }

abbrev swarm : SessionManager ℕ
swarm = record { nodes = ("a", idle) ∷ ("b", serving) ∷ []; events = [] }

on_event_panics_iff_example : (on_event "c" (ToRegistry.stats (no_stats 0)) swarm ≡ panicked) ↔ (
    (contains_key "c" swarm.nodes ≡ false)
    × (needs_node {F = ℕ} (ToRegistry.stats (no_stats 0)) ≡ true))
on_event_panics_iff_example = on_event_panics_iff "c" (ToRegistry.stats (no_stats 0)) swarm

abbrev announced : SessionManager ℕ
announced = record {
  nodes =
      ("a", record idle { layers = some (record { start = 0; end = 2 }) }) ∷ ("b", serving) ∷ [];
  events = ("a", ToWorker.update ("b" ∷ [])) ∷ [];
}

announces : on_event "a" (ToRegistry.update 0 2) swarm ≡ done announced
unfolding on_event get insert others string_dec
announces = refl

on_event-Queued_example :
    ((k : String) → contains_key k announced.nodes ≡ contains_key k swarm.nodes)
    × ((out : List (String × ToWorker)) × Queued swarm "a" (ToRegistry.update 0 2) out
        × (announced.events ≡ swarm.events ++ out))
on_event-Queued_example = on_event-Queued "a" (ToRegistry.update 0 2) swarm announces

recv-Follows_example :
    (s' : RegistryServer ℕ) × (out : List (Sent ℕ)) × (recv 0 new (start "phi3" "a" 1)
      ≡ done (s', out))
    × Follows s' new (start "phi3" "a" 1)
recv-Follows_example = recv-Follows 0 new (start "phi3" "a" 1) new-IsSynced tt
