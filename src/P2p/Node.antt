-- ===== src/P2p/Node.antt =====
-- NetworkNode of crates/p2p-network/src/node.rs: the maps from connections to peers and from peers
-- to connections. A connection (RemoteConn, which drives the WebRTC library) and the coding of
-- messages (prost) are parameters; what goes out over UDP is a list of packets, in order.
pub mod Peers
use decentralized_llm_infere.Base.{
  ℕ, Bool, true, false, Option, none, some, List, [], ◌∷◌, ◌++◌, String, HashMap, get, insert,
  remove, contains_key, keys, if◌then◌else◌, length, nat_key, string_key, string_dec, ite, ◌==◌,
  Outcome, done, panicked, ◌>>=◌,
}
use decentralized_llm_infere.P2p.SharedPort.{SharedUdpPort, add_ufrag, remove_task, map_remote}
use decentralized_llm_infere.P2p.SharedPort as SharedPort

-- `RemoteConnOut`
pub data RemoteConnOut : Type 0 where
  transmit : (from to : ℕ) → List ℕ → RemoteConnOut
  connected : RemoteConnOut
  message : List ℕ → RemoteConnOut
  disconnected : RemoteConnOut

pub data IncomingError : Type 0 where
  remote_not_found sdp_error max_connection already_has : IncomingError

pub data SendError : Type 0 where
  no_node no_connection connection_not_ready timeout : SendError

-- `NodeEvent`, but for the statistics, which are never sent.
pub data NodeEvent (Msg : Type 0) : Type 0 where
  node_connected : (conn : ℕ) → (node : String) → NodeEvent Msg
  node_msg : (conn : ℕ) → (node : String) → Msg → NodeEvent Msg
  node_disconnected : (conn : ℕ) → (node : String) → NodeEvent Msg

-- What the node uses of RemoteConn: `drain` is the loop over `pop_outgoing` until it has nothing. An
-- offer that cannot be made panics, and so does a chunk that cannot be written as a whole, where data
-- is sent and where the connection is drained.
pub record RemoteConn (C : Type 0) : Type 0 where
  pub remote : C → String
  pub create_offer : C → Outcome (String × C)
  pub accept_offer : String → C → Option String × C
  pub on_answer : String → C → Bool × C
  pub send_data : List ℕ → C → Outcome (Option ℕ × C)
  pub on_data : (from : ℕ) → List ℕ → C → C
  pub on_tick : C → Bool × C
  pub drain : C → Outcome (List RemoteConnOut × C)

pub data Result (E A : Type 0) : Type 0 where
  ok : A → Result E A
  err : E → Result E A

pub record NetworkNode (C Msg : Type 0) : Type 0 where
  pub conns : HashMap ℕ C
  pub nodes : HashMap String ℕ
  pub events : List (NodeEvent Msg)
  pub shared_udp : SharedUdpPort
  pub sent : List (ℕ × List ℕ)

unfoldable pub new : {C Msg : Type 0} → NetworkNode C Msg
new = record { conns = []; nodes = []; events = []; shared_udp = SharedPort.new; sent = [] }

unfoldable pub peers : {C Msg : Type 0} → NetworkNode C Msg → List String
peers n = keys n.nodes

module _ {C Msg : Type 0} (ops : RemoteConn C) (encode : Msg → List ℕ)
    (decode : List ℕ → Option Msg) where
  -- The loop of `pop_conn`. A message that is no message is dropped.
  unfoldable pub handle : ℕ → String → List RemoteConnOut → NetworkNode C Msg → NetworkNode C Msg
  handle conn_id node [] n = n
  handle conn_id node (transmit from to buf ∷ outs) n =
      handle conn_id node outs (record n { sent = n.sent ++ (to, buf) ∷ [] })
  handle conn_id node (connected ∷ outs) n =
      handle conn_id node outs (record n { events = n.events ++ node_connected conn_id node ∷ [] })
  handle conn_id node (message content ∷ outs) n = handle conn_id node outs (elim (decode content) [
    | none ↦ n
    | some msg ↦ record n { events = n.events ++ node_msg conn_id node msg ∷ [] }
  ])
  handle conn_id node (disconnected ∷ outs) n = handle conn_id node outs (record n {
    shared_udp = (remove_task conn_id n.shared_udp).1;
    events = n.events ++ node_disconnected conn_id node ∷ [];
  })

  -- `pop_conn`: the connection and the node afterwards.
  unfoldable pub pop_conn : ℕ → C → NetworkNode C Msg → Outcome (C × NetworkNode C Msg)
  pop_conn conn_id conn n =
      ops.drain conn >>= λ drained. done (drained.1, handle conn_id (ops.remote conn) drained.0 n)

  -- A connection is stored back after `pop_conn`.
  abbrev pub popped : ℕ → C → NetworkNode C Msg → Outcome (NetworkNode C Msg)
  popped conn_id conn n =
      pop_conn conn_id conn n >>= λ r. done (record r.1 { conns = insert conn_id r.0 r.1.conns })

  unfoldable pub send :
      String → Msg → NetworkNode C Msg → Outcome (Result SendError ℕ × NetworkNode C Msg)
  send node msg n =
      let buf = encode msg in
      elim (get node n.nodes) [
        | none ↦ done (err no_node, n)
        | some conn_id ↦ elim (get conn_id n.conns) [
          | none ↦ done (err no_connection, n)
          | some conn ↦ ops.send_data buf conn >>= λ sent. elim sent.0 [
            | none ↦
                done (err connection_not_ready, record n { conns = insert conn_id sent.1 n.conns })
            | some appended ↦
                if length buf == appended
                then (popped conn_id sent.1 n >>= λ n'. done (ok appended, n'))
                else panicked
          ]
        ]
      ]

  -- The loop over the connections, in the order of the map.
  unfoldable pub broadcast_to :
      List ℕ → HashMap ℕ C → NetworkNode C Msg → Outcome (NetworkNode C Msg)
  broadcast_to buf [] n = done n
  broadcast_to buf ((conn_id, conn) ∷ conns) n =
      ops.send_data buf conn >>= λ sent. popped conn_id sent.1 n >>= λ n'. broadcast_to buf conns n'

  unfoldable pub broadcast : Msg → NetworkNode C Msg → Outcome (NetworkNode C Msg)
  broadcast msg n = broadcast_to (encode msg) n.conns n

  unfoldable pub tick_conns : HashMap ℕ C → NetworkNode C Msg → Outcome (NetworkNode C Msg)
  tick_conns [] n = done n
  tick_conns ((conn_id, conn) ∷ conns) n =
      let (due, conn') = ops.on_tick conn in
      (if due
        then popped conn_id conn' n
        else done (record n { conns = insert conn_id conn' n.conns }))
      >>= λ n'. tick_conns conns n'

  unfoldable pub tick : NetworkNode C Msg → Outcome (NetworkNode C Msg)
  tick n = tick_conns n.conns n

  -- `connect`, with the number that `ConnId::rand` gives, and the new connection and its user name
  -- from `RemoteConn::new`.
  unfoldable pub connect :
      ℕ
      → C
      → String
      → String
      → NetworkNode C Msg
      → Outcome (Option (ℕ × String) × NetworkNode C Msg)
  connect conn_id fresh ufrag dest n =
      if contains_key dest n.nodes
      then done (none, n)
      else (let n1 = record n {
        nodes = insert dest conn_id n.nodes;
        shared_udp = add_ufrag ufrag conn_id n.shared_udp;
      } in
          ops.create_offer fresh >>= λ made.
          popped conn_id made.1 n1 >>= λ n2. done (some (conn_id, made.0), n2))

  unfoldable pub on_offer :
      ℕ
      → C
      → String
      → String
      → String
      → NetworkNode C Msg
      → Outcome (Result IncomingError String × NetworkNode C Msg)
  on_offer conn_id fresh ufrag from offer n =
      if contains_key conn_id n.conns
      then done (err already_has, n)
      else (let n1 = record n { shared_udp = add_ufrag ufrag conn_id n.shared_udp } in
          let (answer, conn) = ops.accept_offer offer fresh in
          elim answer [
            | none ↦ done (err sdp_error, n1)
            | some sdp ↦ popped conn_id conn n1 >>= λ n2.
                done (ok sdp, record n2 { nodes = insert from conn_id n2.nodes })
          ])

  unfoldable pub on_answer :
      ℕ
      → String
      → String
      → NetworkNode C Msg
      → Outcome (Result IncomingError Unit × NetworkNode C Msg)
  on_answer conn_id from answer n = elim (get conn_id n.conns) [
    | none ↦ done (err remote_not_found, n)
    | some conn ↦
        ite (string_dec (ops.remote conn) from)
          (let (accepted, conn') = ops.on_answer answer conn in
            if accepted
            then (popped conn_id conn' n >>= λ n'. done (ok tt, n'))
            else done (err sdp_error, record n { conns = insert conn_id conn' n.conns }))
          (done (err remote_not_found, n))
  ]

  -- The head of the loop of `recv`: an event that waits is handed out, and a disconnection takes
  -- the connection and the peer out of the maps.
  unfoldable pub pop_event : NetworkNode C Msg → Option (NodeEvent Msg) × NetworkNode C Msg
  pop_event n = elim n.events [
    | [] ↦ (none, n)
    | out ∷ rest ↦ (
      some out,
      elim out [
        | node_connected conn node ↦ record n { events = rest }
        | node_msg conn node msg ↦ record n { events = rest }
        | node_disconnected conn_id node ↦ record n {
          events = rest;
          conns = remove conn_id n.conns;
          nodes = remove node n.nodes;
        }
      ],
    )
  ]

  -- A packet that is no STUN response of the node's own servers.
  unfoldable pub on_packet :
      (List ℕ → Option String) → ℕ → List ℕ → NetworkNode C Msg → Outcome (NetworkNode C Msg)
  on_packet stun_username remote buf n =
      let (task, shared) = map_remote stun_username remote buf n.shared_udp in
      let n1 = record n { shared_udp = shared } in
      elim task [
        | none ↦ done n1
        | some conn_id ↦ elim (get conn_id n1.conns) [
          | none ↦ done n1
          | some conn ↦ popped conn_id (ops.on_data remote buf conn) n1
        ]
      ]
