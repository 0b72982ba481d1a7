-- ===== src/Worker/Communication.antt =====
-- WorkerCommunication of crates/worker/src/communication.rs: one round of the main loop for each
-- event that `select!` may take. The handler of a request runs on its own: what it is given and
-- what the waiting callers are given are logged.
pub mod Offers
use decentralized_llm_infere.Base.{
  ℕ, Bool, true, false, Option, none, some, List, [], ◌∷◌, ◌++◌, String, Outcome, done, panicked,
  ◌>>=◌, nat_key, string_key, expect,
}
use decentralized_llm_infere.Router.{
  RouteTable, RoutePath, apply_sync, create_sync, on_tick, on_disconnected, select_next, ready,
}
use decentralized_llm_infere.Protocol.{SyncReq, encode_sync, decode_sync}
use decentralized_llm_infere.Protocol.Registry.{Stats}
use decentralized_llm_infere.Registry.Client.{
  RegistryClient, RegistryClientEvent, answered, offered, neighbours, update_stats, offer, answer,
}
use decentralized_llm_infere.P2p.Node.{
  RemoteConn, NetworkNode, NodeEvent, node_connected, node_msg, node_disconnected, Result, ok, err,
  SendError, IncomingError, broadcast, send, connect, on_offer, on_answer, pop_event, peers,
}
use decentralized_llm_infere.Worker.Rpc.{RpcReq, RpcRes, RpcClientRx, on_res, recv}

-- `worker::event::Event`
pub data Event : Type 0 where
  sync_req : SyncReq → Event
  sync_res : Event
  rpc_req : RpcReq → Event
  rpc_res : RpcRes → Event

-- `worker::Event`, whose `oneof` may be absent.
abbrev pub Msg : Type 0
Msg = Option Event

-- `FAKE_RTT`
abbrev pub fake_rtt : ℕ
fake_rtt = 50

pub record WorkerCommunication (C F : Type 0) : Type 0 where
  pub registry_client : RegistryClient F
  pub router : RouteTable String
  pub network : NetworkNode C Msg
  pub rpc_rx : RpcClientRx
  pub spawned : List (String × RpcReq)
  pub delivered : List (ℕ × RpcRes)

-- What `select!` may take. A new connection comes with its number and its user name, as
-- `ConnId::rand` and `RemoteConn::new` give them, and an event of the network with the callers that
-- wait no longer.
pub data Input (C F : Type 0) : Type 0 where
  ticked : (now_ms : ℕ) → Stats F → Input C F
  registry_event : RegistryClientEvent → (String → ℕ × C × String) → Input C F
  network_event : (gone : ℕ → Bool) → Input C F
  call : (dest : String) → (cmd : String) → (payload : List ℕ) → (tx : ℕ) → Input C F
  reply : (dest : String) → RpcRes → Input C F

-- An answer for the registry: the error is turned into text.
abbrev pub to_answer : Result IncomingError String → Option String
to_answer (ok sdp) = some sdp
to_answer (err e) = none

module _ {C F : Type 0} (model_layers : ℕ) (ops : RemoteConn C) (encode : Msg → List ℕ)
    (decode : List ℕ → Option Msg) where
  -- The loop over the neighbours.
  unfoldable pub connect_all :
      (String → ℕ × C × String)
      → List String
      → WorkerCommunication C F
      → Outcome (WorkerCommunication C F)
  connect_all fresh [] w = done w
  connect_all fresh (node ∷ nodes) w =
      let (id, conn, ufrag) = fresh node in
      connect ops encode decode id conn ufrag node w.network >>= λ r.
      connect_all fresh nodes (elim r.0 [
        | none ↦ record w { network = r.1 }
        | some (conn_id, sdp) ↦ record w {
          network = r.1;
          registry_client = offer node conn_id sdp w.registry_client;
        }
      ])

  unfoldable pub on_registry :
      RegistryClientEvent
      → (String → ℕ × C × String)
      → WorkerCommunication C F
      → Outcome (WorkerCommunication C F)
  on_registry (answered from conn sdp) fresh w =
      on_answer ops encode decode conn from sdp w.network >>= λ r. done (record w { network = r.1 })
  on_registry (offered from conn sdp) fresh w =
      let (id, new_conn, ufrag) = fresh from in
      on_offer ops encode decode conn new_conn ufrag from sdp w.network >>= λ r.
      answer from conn (to_answer r.0) w.registry_client >>= λ client.
      done (record w { network = r.1; registry_client = client })
  on_registry (neighbours nodes) fresh w = connect_all fresh nodes w

  -- `none` where the loop ends.
  unfoldable pub on_message :
      (gone : ℕ → Bool)
      → String
      → Msg
      → WorkerCommunication C F
      → Outcome (Option (WorkerCommunication C F))
  on_message gone remote none w = done none
  on_message gone remote (some (sync_req req)) w =
      done (some (record w { router = apply_sync remote fake_rtt (decode_sync req) w.router }))
  on_message gone remote (some sync_res) w = done (some w)
  on_message gone remote (some (rpc_req req)) w =
      done (some (record w { spawned = w.spawned ++ (remote, req) ∷ [] }))
  on_message gone remote (some (rpc_res res)) w = on_res gone res w.rpc_rx >>= λ r. done (
      some (record w {
        rpc_rx = r.1;
        delivered = w.delivered ++ elim r.0 [ none ↦ [] | some d ↦ d ∷ [] ];
      }))

  unfoldable pub on_node_event :
      (gone : ℕ → Bool)
      → NodeEvent Msg
      → WorkerCommunication C F
      → Outcome (Option (WorkerCommunication C F))
  on_node_event gone (node_connected conn node) w = done (some w)
  on_node_event gone (node_msg conn remote msg) w = on_message gone remote msg w
  on_node_event gone (node_disconnected conn node) w =
      done (some (record w { router = on_disconnected node w.router }))

  -- The result of `send` is only logged.
  abbrev send_event : String → Event → WorkerCommunication C F → Outcome (WorkerCommunication C F)
  send_event dest event w = send ops encode decode dest (some event) w.network >>= λ sent.
      done (record w { network = sent.1 })

  unfoldable pub step :
      Input C F → WorkerCommunication C F → Outcome (Option (WorkerCommunication C F))
  step (ticked now_ms stats) w = create_sync model_layers w.router now_ms >>= λ sync.
      broadcast ops encode decode (some (sync_req (encode_sync sync))) w.network >>= λ network.
      done (
        some (record w {
          registry_client = update_stats stats w.registry_client;
          network = network;
          router = on_tick now_ms w.router;
        }))
  step (registry_event e fresh) w = on_registry e fresh w >>= λ w'. done (some w')
  step (network_event gone) w =
      let (event, network) = pop_event ops encode decode w.network in
      let w' = record w { network = network } in
      elim event [ none ↦ done (some w') | some e ↦ on_node_event gone e w' ]
  step (call dest cmd payload tx) w =
      let (sent, rpc_rx) = recv dest cmd payload tx w.rpc_rx in
      send_event dest (rpc_req sent.1) (record w { rpc_rx = rpc_rx }) >>= λ w'. done (some w')
  step (reply dest res) w = send_event dest (rpc_res res) w >>= λ w'. done (some w')

  -- The loop over a list of events, until it ends.
  unfoldable pub run :
      List (Input C F) → WorkerCommunication C F → Outcome (Option (WorkerCommunication C F))
  run [] w = done (some w)
  run (i ∷ is) w = step i w >>= λ next. elim next [ none ↦ done none | some w' ↦ run is w' ]
