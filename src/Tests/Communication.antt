-- ===== src/Tests/Communication.antt =====
-- A worker that serves a model of one layer alone: the theorems on
-- crates/worker/src/communication.rs at concrete inputs.
use decentralized_llm_infere.Base.{
  string_key, ℕ, ◌≡◌, ◌⊎◌, ◌↔◌, true, false, Option, none, some, List, [], String, contains_key,
  nat_key, panicked,
}
use decentralized_llm_infere.Router.{Range, new}
use decentralized_llm_infere.Registry.Client.{offered}
use decentralized_llm_infere.P2p.RemoteConn.{RemoteConn}
use decentralized_llm_infere.P2p.RemoteConn.Connection.{connection}
use decentralized_llm_infere.Tests.RemoteConn.{bincode, rtc, conn}
use decentralized_llm_infere.P2p.Node as Node
use decentralized_llm_infere.Worker.Rpc as Rpc
use decentralized_llm_infere.Worker.Communication.{Msg, WorkerCommunication, on_registry}
use decentralized_llm_infere.Worker.Communication.Offers.{on_registry_panics_iff}

-- The connections of crates/p2p-network/src/node/remote_conn.rs, over a library that accepts no offer.
abbrev ops : Node.RemoteConn (RemoteConn ℕ ℕ)
ops = connection (record rtc { accept_offer = λ offer r. (none, r) }) bincode 9 0 7

abbrev encode : Msg → List ℕ
encode msg = []

abbrev decode : List ℕ → Option Msg
decode bytes = none

abbrev whole : Range
whole = record { start = 0; end = 1 }

abbrev start : WorkerCommunication (RemoteConn ℕ ℕ) ℕ
start = record {
  registry_client = record { queue = [] };
  router = new 1 whole;
  network = Node.new;
  rpc_rx = Rpc.new;
  spawned = [];
  delivered = [];
}

abbrev fresh : String → ℕ × RemoteConn ℕ ℕ × String
fresh node = (1, record conn { remote = node }, "ufrag")

on_registry_panics_iff_example :
    (on_registry 1 ops encode decode (offered "b" 4 "garbage") fresh start ≡ panicked) ↔ (
      (contains_key 4 start.network.conns ≡ true)
      ⊎ ((contains_key 4 start.network.conns ≡ false)
          × (((ops.accept_offer "garbage" (record conn { remote = "b" })).0 ≡ none)
              ⊎ ((text : String) × ((ops.accept_offer "garbage" (record conn { remote = "b" })).0
                    ≡ some text)
                  × (ops.drain (ops.accept_offer "garbage" (record conn { remote = "b" })).1
                      ≡ panicked)))))
on_registry_panics_iff_example =
    on_registry_panics_iff ops encode decode 1 "b" "garbage" 4 fresh start
