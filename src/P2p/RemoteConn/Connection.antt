-- ===== src/P2p/RemoteConn/Connection.antt =====
-- The connections of crates/p2p-network/src/node/remote_conn.rs as those that the network node of
-- crates/p2p-network/src/node.rs keeps.
use decentralized_llm_infere.Base.{
  ℕ, zero, suc, none, some, List, [], ◌∷◌, length, Outcome, done, panicked, ◌>>=◌,
}
use decentralized_llm_infere.P2p.Buffer.{Bincode}
use decentralized_llm_infere.P2p.Node as Node
use decentralized_llm_infere.P2p.Node.{RemoteConnOut}
use decentralized_llm_infere.P2p.RemoteConn.{
  Rtc, RemoteConn, returns, continues, poll_round, create_offer, accept_offer, on_answer, send_data,
  on_data, on_tick,
}

module _ {R P : Type 0} (lib : Rtc R P) (bincode : Bincode) where
  -- The loop of the node over `pop_outgoing`, whose own loop takes rounds of `poll_round`. Nothing
  -- bounds the rounds in the code: one that takes more than given here does not come back, like one
  -- that panics.
  unfoldable pub drain : ℕ → RemoteConn R P → Outcome (List RemoteConnOut × RemoteConn R P)
  drain zero c = panicked
  drain (suc rounds) c = poll_round lib bincode c >>= λ r. elim r.0 [
    | continues ↦ drain rounds r.1
    | returns out ↦ elim out [
      | none ↦ done ([], r.1)
      | some out ↦ drain rounds r.1 >>= λ rest. done (out ∷ rest.0, rest.1)
    ]
  ]

  -- What the node uses of a connection, at a time and at an address of its own.
  abbrev pub connection : (rounds now local : ℕ) → Node.RemoteConn (RemoteConn R P)
  connection rounds now local = record {
    remote = λ c. c.remote;
    create_offer = create_offer lib bincode;
    accept_offer = accept_offer lib bincode;
    on_answer = on_answer lib bincode;
    send_data = λ buf c. send_data lib bincode buf c >>= λ c'. done (some (length buf), c');
    on_data = λ from buf c. (on_data lib bincode now from local buf c).1;
    on_tick = on_tick lib bincode now;
    drain = drain rounds;
  }
