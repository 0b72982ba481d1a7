-- ===== src/Tests/Peers.antt =====
-- A node with two connections to a peer: the theorems on crates/p2p-network/src/node.rs and
-- crates/p2p-network/src/shared_port.rs at concrete inputs.
use decentralized_llm_infere.Base.{
  ℕ, ◌≡◌, ◌≢◌, ◌⊎◌, refl, true, false, Option, none, some, List, [], ◌∷◌, String, get, insert,
  contains_key, nat_key, string_key, arith, Outcome, done, string_dec, ℕ_discrete,
}
use decentralized_llm_infere.P2p.SharedPort.{SharedUdpPort, add_ufrag, remove_task, map_remote}
use decentralized_llm_infere.P2p.SharedPort as SharedPort
use decentralized_llm_infere.P2p.SharedPort.Tables.{IsValid}
use decentralized_llm_infere.P2p.SharedPort.Removal.{
  Call, opens, packet, run, AllAllowed, remove_task-map_remote,
}
use decentralized_llm_infere.P2p.Node.{
  NetworkNode, node_disconnected, Result, err, IncomingError, already_has, sdp_error, no_node,
  on_offer, send, pop_event,
}
use decentralized_llm_infere.P2p.Node as Node
use decentralized_llm_infere.P2p.RemoteConn.{RemoteConn}
use decentralized_llm_infere.P2p.RemoteConn.Connection.{connection}
use decentralized_llm_infere.Tests.RemoteConn.{bincode, rtc, conn}
use decentralized_llm_infere.P2p.Node.Peers.{Drained, on_offer-Joins, pop_event-send}

-- A packet that is not empty is a STUN message for "x".
unfoldable username : List ℕ → Option String
username [] = none
username (b ∷ bytes) = some "x"

-- Connection 1 opens as "x", and address 80 sends to it.
abbrev history : List (Call username)
history = opens "x" 1 ∷ packet 80 (5 ∷ []) ∷ []

history-AllAllowed : AllAllowed username history SharedPort.new
unfolding SharedPort.new get
history-AllAllowed = ((refl, refl), (tt, tt))

open_task : get 1 (run username history SharedPort.new).task_ufrags_reverse ≡ some "x"
unfolding SharedPort.new add_ufrag map_remote get insert username string_dec ℕ_discrete
open_task = refl

remove_task-map_remote_example :
    IsValid (remove_task 1 (run username history SharedPort.new)).1
    × ((map_remote username 80 (5 ∷ []) (remove_task 1 (run username history SharedPort.new)).1).0
        ≢ some 1)
remove_task-map_remote_example =
    remove_task-map_remote username history 1 "x" 80 (5 ∷ []) history-AllAllowed open_task

-- The connections of crates/p2p-network/src/node/remote_conn.rs, over a library that accepts offers.
abbrev ops : Node.RemoteConn (RemoteConn ℕ ℕ)
ops = connection rtc bincode 9 0 7

abbrev other_conn : RemoteConn ℕ ℕ
other_conn = record conn { remote = "c" }

abbrev encode : ℕ → List ℕ
encode n = n ∷ []

abbrev decode : List ℕ → Option ℕ
decode bytes = none

abbrev start : NetworkNode (RemoteConn ℕ ℕ) ℕ
start = record {
  conns = (1, conn) ∷ (2, conn) ∷ [];
  nodes = ("b", 2) ∷ [];
  events = node_disconnected 1 "b" ∷ [];
  shared_udp = SharedPort.new;
  sent = [];
}

abbrev offered : Outcome (Result IncomingError String × NetworkNode (RemoteConn ℕ ℕ) ℕ)
offered = on_offer ops encode decode 3 other_conn "ufrag" "c" "offer" start

on_offer-Joins_example :
    ((contains_key 3 start.conns ≡ true) × (offered ≡ done (err already_has, start)))
    ⊎ ((contains_key 3 start.conns ≡ false)
        × ((ops.accept_offer "offer" other_conn).0 ≡ none)
        × ((n' : NetworkNode (RemoteConn ℕ ℕ) ℕ) × (offered ≡ done (err sdp_error, n'))
            × (n'.conns ≡ start.conns)
            × (n'.nodes ≡ start.nodes)))
    ⊎ ((sdp : String) × (contains_key 3 start.conns ≡ false)
        × ((ops.accept_offer "offer" other_conn).0 ≡ some sdp)
        × Drained ops encode decode 3 "c" sdp (ops.accept_offer "offer" other_conn).1 start offered)
on_offer-Joins_example = on_offer-Joins ops encode decode 3 other_conn "ufrag" "c" "offer" start

known_peer : get "b" start.nodes ≡ some 2
unfolding get string_dec
known_peer = refl

known_conn : get 2 start.conns ≡ some conn
unfolding get ℕ_discrete
known_conn = refl

pop_event-send_example :
    (send ops encode decode "b" 7 (pop_event ops encode decode start).1
      ≡ done (err no_node, (pop_event ops encode decode start).1))
    × (get 2 (pop_event ops encode decode start).1.conns ≡ some conn)
pop_event-send_example =
    pop_event-send ops encode decode start 1 2 "b" conn [] 7 refl known_peer known_conn
      (λ e. omega arith)
