-- ===== src/Registry/Server/Streams/Replaced.antt =====
-- Histories of the main loop and of the web sockets of crates/registry/src/server/mod.rs in which a
-- worker connects again while the task of its old connection runs.
use decentralized_llm_infere.Base.{
  ℕ, ◌≡◌, ◌≢◌, refl, ◌∙◌, ap, String, true, some, [], ◌∷◌, arith, done, panicked, ◌>>=◌, HashMap,
  get, insert, remove, string_key, nat_key, pair_key, get-insert, get-remove,
}
use decentralized_llm_infere.Protocol.Registry.{ToRegistry}
use decentralized_llm_infere.Registry.Sessions.{on_start, on_end}
use decentralized_llm_infere.Registry.Sessions.Events.{needs_node}
use decentralized_llm_infere.Registry.Server.{RegistryServer, entry, recv}
use decentralized_llm_infere.Registry.Server.Reconnect.{ended_panics}
use decentralized_llm_infere.Registry.Server.Streams.{
  System, connects, reads, ends, serves, step, run,
}
use decentralized_llm_infere.Registry.Server.Streams.History.{ends_lem, reads_lem}

-- Let a web socket open for a model and node of which a task runs, while no event waits. When the
-- main loop has taken the start, the stream of the model and node is the new one, and the new task
-- runs. If then the old task ends and the main loop takes this end, the next update or stats message
-- that the new task reads panics the main loop.
pub reconnect_panics :
    {F : Type 0}
    → (zero : F) (server : RegistryServer F) (tasks : HashMap ℕ (String × String)) (tx tx' : ℕ)
      (model node : String) (e : ToRegistry F)
    → get tx tasks ≡ some (model, node)
    → tx ≢ tx'
    → needs_node e ≡ true
    → (s : System F) × (run zero
          (connects tx' model node ∷ serves ∷ [])
          (record { server = server; queue = []; tasks = tasks })
        ≡ done s)
      × (get (model, node) s.server.streams_tx ≡ some tx')
      × (get tx' s.tasks ≡ some (model, node))
      × (run zero (ends tx ∷ serves ∷ reads tx' e ∷ serves ∷ []) s ≡ panicked)
unfolding run step recv
reconnect_panics {F = F} zero server tasks tx tx' model node e at apart needs =
    let sub : get tx (insert tx' (model, node) tasks) ≡ some (model, node) =
      ground (arith, get-insert tx' tx (model, node) tasks) in
    let here : get tx' (remove tx (insert tx' (model, node) tasks)) ≡ some (model, node) = ground (
      arith,
      get-remove tx tx' (insert tx' (model, node) tasks),
      get-insert tx' tx' (model, node) tasks,
    ) in
    let replaced : System F = record {
      server = record {
        models = insert model (on_start zero node (entry model server)) server.models;
        streams_tx = insert (model, node) tx' server.streams_tx;
      };
      queue = [];
      tasks = insert tx' (model, node) tasks;
    } in
    let forgotten : System F = record {
      server = record {
        models = insert model (on_end node (entry model replaced.server)) replaced.server.models;
        streams_tx = remove (model, node) replaced.server.streams_tx;
      };
      queue = [];
      tasks = remove tx replaced.tasks;
    } in
    (
      replaced,
      refl,
      ground (arith, get-insert (model, node) (model, node) tx' server.streams_tx),
      ground (arith, get-insert tx' tx' (model, node) tasks),
      ap (λ o. o >>= run zero (serves ∷ reads tx' e ∷ serves ∷ []))
            (ends_lem zero replaced tx model node sub)
          ∙ ap (λ o. o >>= run zero (serves ∷ [])) (reads_lem zero forgotten tx' model node e here)
          ∙ rw
              (ended_panics replaced.server model node (entry model replaced.server)
                (remove (model, node) replaced.server.streams_tx) e needs)
              refl,
    )
