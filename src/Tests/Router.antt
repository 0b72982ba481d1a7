-- ===== src/Tests/Router.antt =====
-- A node that serves the first of two layers, and a neighbour that serves the second: the theorems
-- on crates/model-router/src/table.rs at this table.
use decentralized_llm_infere.Base.{
  ℕ, ◌≡◌, ◌≤◌, ◌<◌, ◌≢◌, ◌+◌, refl, Option, none, some, List, [], ◌∷◌, arith, get_elem?, get,
  insert, remove, retain, contains_key, ℕ_discrete, nat_key, done, u64,
}
use mathlib.Core.Option
use decentralized_llm_infere.Protocol.{encode_sync, decode_sync}
use decentralized_llm_infere.Router.{
  Range, RouteSync, Hop, RoutePath, RouteTable, LayerRemotePaths, new, select_next, apply_sync,
  create_sync, on_tick, on_disconnected, tick_layer, disconnect_layer, advertise, hop_from,
  update_best, sync_layer, sync_layers, min_by_cost, route_timeout_ms,
}
use decentralized_llm_infere.Router.Invariant.{Call, syncs, run, step, IsValid, run-new-IsValid}
use decentralized_llm_infere.Router.Select.{Answers, select_next-Answers}
use decentralized_llm_infere.Router.Expiry.{on_tick-route_fresh, on_disconnected-route_ne}
use decentralized_llm_infere.Router.Exchange.{farther, exchange_lem}

abbrev own_layers : Range
own_layers = record { start = 0; end = 1 }

abbrev second_layer : RouteSync
second_layer = record { layers = none ∷ some (record { cost = 10; last_updated = 100 }) ∷ [] }

-- Node 7 advertises the second layer, over a connection of 50.
abbrev history : List (Call ℕ)
history = syncs 7 50 second_layer ∷ []

abbrev table : RouteTable ℕ
table = run (new 2 own_layers) history

abbrev second_paths : LayerRemotePaths ℕ
second_paths = record {
  remotes = (7, record { cost = 60; last_updated = 100 }) ∷ [];
  next = some (7, record { cost = 60; last_updated = 100 });
}

table-end : table.local_layers.end ≤ 2
unfolding run step new apply_sync
table-end = omega arith

run-new-IsValid_example : IsValid 2 (run (new 2 own_layers) history)
run-new-IsValid_example = run-new-IsValid 2 own_layers history

select_next-Answers_example :
    (path : Option (RoutePath ℕ)) × (select_next 2 table 0 ≡ done path) × Answers 2 table 0 path
select_next-Answers_example =
    select_next-Answers 2 (omega arith) table (run-new-IsValid 2 own_layers history) 0 (omega arith)
      table-end

abbrev route : Hop ℕ → RoutePath ℕ
route hop = record { local = some (record { start = 0; end = 1 }); remote = some hop }

abbrev hop_to_7 : Hop ℕ
hop_to_7 = record {
  dest = 7;
  layers = record { start = 1; end = 2 };
  cost = 60;
  last_updated = 100;
}

table_ticked : select_next 2 (on_tick 5000 table) 0 ≡ done (some (route hop_to_7))
unfolding run step new apply_sync sync_layers sync_layer update_best get insert min_by_cost
    select_next hop_from on_tick tick_layer retain
table_ticked = refl

on_tick-route_fresh_example : 5000 < u64 (100 + route_timeout_ms)
on_tick-route_fresh_example =
    on_tick-route_fresh 2 (omega arith) table (run-new-IsValid 2 own_layers history) 0 (omega arith)
      table-end 5000 (route hop_to_7) hop_to_7 table_ticked refl

table_disconnected : select_next 2 (on_disconnected 8 table) 0 ≡ done (some (route hop_to_7))
unfolding run step new apply_sync sync_layers sync_layer update_best get insert min_by_cost
    select_next hop_from on_disconnected disconnect_layer remove contains_key ℕ_discrete
table_disconnected = refl

on_disconnected-route_ne_example : ◌≢◌ {A = ℕ} 7 8
on_disconnected-route_ne_example =
    on_disconnected-route_ne 2 (omega arith) table (run-new-IsValid 2 own_layers history) 0
      (omega arith) table-end 8 (route hop_to_7) hop_to_7 table_disconnected refl

table-IsValid : IsValid 2 table
table-IsValid = run-new-IsValid 2 own_layers history

exchange_lem_example :
    (sync : RouteSync) × (create_sync 2 table 5000 ≡ done sync)
    × (path : Option (RoutePath ℕ)) × (select_next 2 table 0 ≡ done path)
    × (q : LayerRemotePaths ℕ) × (get_elem?
          (apply_sync 9 20 (decode_sync (encode_sync sync)) table).remote_layers
          0
        ≡ some q)
    × (get 9 q.remotes ≡ Option.map (farther 20) (Option.map (advertise 5000) path))
exchange_lem_example =
    exchange_lem 2 (omega arith) table table-IsValid table-end 5000 9 20 table 0 table-IsValid
      (omega arith)
