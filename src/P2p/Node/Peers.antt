-- ===== src/P2p/Node/Peers.antt =====
-- connect, on_offer, send and the disconnections of recv in crates/p2p-network/src/node.rs: which
-- peers a node can send to.
use decentralized_llm_infere.Base.{
  ℕ, ◌≡◌, ◌≢◌, refl, sym, subst, ap, ◌∙◌, true, false, Option, none, some, List, [], ◌∷◌, String,
  get, insert, remove, contains_key, get-insert, get-remove, nat_key, string_key, string_dec, ite,
  arith, Option-cases, Outcome-cases, Outcome, panicked, Bool-cases, inl, inr, ◌⊎◌, done,
}
use decentralized_llm_infere.P2p.SharedPort.{add_ufrag}
use decentralized_llm_infere.P2p.Node.{
  RemoteConn, RemoteConnOut, transmit, connected, message, disconnected, NetworkNode, NodeEvent,
  node_disconnected, Result, IncomingError, ok, err, already_has, sdp_error, no_node, handle,
  pop_conn, on_offer, send, pop_event,
}

module _ {C Msg : Type 0} (ops : RemoteConn C) (encode : Msg → List ℕ)
    (decode : List ℕ → Option Msg) where
  -- What a connection puts out changes neither map.
  pub handle_keeps :
      (id : ℕ) (node : String) (outs : List RemoteConnOut) (n : NetworkNode C Msg)
      → ((handle ops encode decode id node outs n).conns ≡ n.conns)
        × ((handle ops encode decode id node outs n).nodes ≡ n.nodes)
  unfolding handle
  handle_keeps id node [] n = (refl, refl)
  handle_keeps id node (transmit from to buf ∷ outs) n = handle_keeps id node outs _
  handle_keeps id node (connected ∷ outs) n = handle_keeps id node outs _
  handle_keeps id node (message content ∷ outs) n = elim (Option-cases (decode content)) [
    | inl e ↦ rw (handle, e) (handle_keeps id node outs n)
    | inr (msg, e) ↦ rw (handle, e) (handle_keeps id node outs _)
  ]
  handle_keeps id node (disconnected ∷ outs) n = handle_keeps id node outs _

  -- A node's maps after it has got a connection to a peer.
  abbrev pub Joins : ℕ → String → C → NetworkNode C Msg → NetworkNode C Msg → Type 0
  Joins id peer conn n n' =
      ((k : String) → get k n'.nodes ≡ ite (string_dec k peer) (some id) (get k n.nodes))
      × ((j : ℕ) → get j n'.conns ≡ ite (nat_key.dec j id) (some conn) (get j n.conns))

  -- What on_offer does with an offer that it reads, by what the loop over `pop_outgoing` of the new
  -- connection does.
  abbrev pub Drained :
      ℕ
      → String
      → String
      → C
      → NetworkNode C Msg
      → Outcome (Result IncomingError String × NetworkNode C Msg)
      → Type 0
  Drained id from sdp conn n result =
      ((ops.drain conn ≡ panicked) × (result ≡ panicked))
      ⊎ ((outs : List RemoteConnOut) × (conn' : C) × (n' : NetworkNode C Msg) × (ops.drain conn
            ≡ done (outs, conn'))
          × (result ≡ done (ok sdp, n'))
          × Joins id from conn' n n')

  read_offer :
      (id : ℕ) (fresh : C) (ufrag from offer sdp : String) (n : NetworkNode C Msg)
      → contains_key id n.conns ≡ false
      → (ops.accept_offer offer fresh).0 ≡ some sdp
      → Drained id from sdp
          (ops.accept_offer offer fresh).1
          n
          (on_offer ops encode decode id fresh ufrag from offer n)
  unfolding on_offer pop_conn
  read_offer id fresh ufrag from offer sdp n unknown read =
      let conn = (ops.accept_offer offer fresh).1 in
      let n1 : NetworkNode C Msg = record n { shared_udp = add_ufrag ufrag id n.shared_udp } in
      elim (Outcome-cases (ops.drain conn)) [
        | inl e ↦ inl (e, rw (on_offer, unknown, read, e) refl)
        | inr ((outs, conn'), e) ↦
            let keeps = handle_keeps id (ops.remote conn) outs n1 in
            let n2 = handle ops encode decode id (ops.remote conn) outs n1 in
            inr (
              outs,
              conn',
              record n2 { conns = insert id conn' n2.conns; nodes = insert from id n2.nodes },
              e,
              rw (on_offer, unknown, read, e) refl,
              (
                λ k.
                    get-insert from k id n2.nodes
                    ∙ ap (λ m. ite (string_dec k from) (some id) (get k m)) keeps.1,
                λ j.
                    get-insert id j conn' n2.conns
                    ∙ ap (λ m. ite (nat_key.dec j id) (some conn') (get j m)) keeps.0,
              ),
            )
      ]

  -- An offer is refused where its connection exists, and has no effect on the maps where it cannot
  -- be read. Otherwise it panics where the new connection's loop over `pop_outgoing` does, and where
  -- that ends, the node has the connection in its maps afterwards, as that of the peer, in the place
  -- of any earlier one, next to what was there.
  pub on_offer-Joins :
      (id : ℕ) (fresh : C) (ufrag from offer : String) (n : NetworkNode C Msg)
      → ((contains_key id n.conns ≡ true)
          × (on_offer ops encode decode id fresh ufrag from offer n ≡ done (err already_has, n)))
        ⊎ ((contains_key id n.conns ≡ false)
            × ((ops.accept_offer offer fresh).0 ≡ none)
            × ((n' : NetworkNode C Msg) × (on_offer ops encode decode id fresh ufrag from offer n
                  ≡ done (err sdp_error, n'))
                × (n'.conns ≡ n.conns)
                × (n'.nodes ≡ n.nodes)))
        ⊎ ((sdp : String) × (contains_key id n.conns ≡ false)
            × ((ops.accept_offer offer fresh).0 ≡ some sdp)
            × Drained id from sdp
                (ops.accept_offer offer fresh).1
                n
                (on_offer ops encode decode id fresh ufrag from offer n))
  unfolding on_offer
  on_offer-Joins id fresh ufrag from offer n = elim (Bool-cases (contains_key id n.conns)) [
    | inl known ↦ inl (known, rw (on_offer, known) refl)
    | inr unknown ↦ elim (Option-cases (ops.accept_offer offer fresh).0) [
      | inl garbled ↦
          let n' : NetworkNode C Msg = record n { shared_udp = add_ufrag ufrag id n.shared_udp } in
          inr (inl (unknown, garbled, (n', rw (on_offer, unknown, garbled) refl, refl, refl)))
      | inr (sdp, read) ↦
          inr (inr (sdp, unknown, read, read_offer id fresh ufrag from offer sdp n unknown read))
    ]
  ]

  -- The end of an earlier connection to a peer makes the node forget the peer: it then refuses to
  -- send to it, although the connection that it had for the peer is still in its map.
  pub pop_event-send :
      (n : NetworkNode C Msg) (old id : ℕ) (peer : String) (conn : C) (rest : List (NodeEvent Msg))
      (msg : Msg)
      → n.events ≡ node_disconnected old peer ∷ rest
      → get peer n.nodes ≡ some id
      → get id n.conns ≡ some conn
      → id ≢ old
      → (send ops encode decode peer msg (pop_event ops encode decode n).1
          ≡ done (err no_node, (pop_event ops encode decode n).1))
        × (get id (pop_event ops encode decode n).1.conns ≡ some conn)
  unfolding send pop_event
  pop_event-send n old id peer conn rest msg first mapped known other =
      let n' : NetworkNode C Msg = record n {
        events = rest;
        conns = remove old n.conns;
        nodes = remove peer n.nodes;
      } in
      let run : (pop_event ops encode decode n).1 ≡ n' = rw (pop_event, first) refl in
      let gone : get peer (remove peer n.nodes) ≡ none =
        ground (arith, get-remove peer peer n.nodes) in
      subst
        (λ m.
          (send ops encode decode peer msg m ≡ done (err no_node, m))
          × (get id m.conns ≡ some conn))
        (sym run) (rw (send, gone) refl, ground (arith, get-remove old id n.conns))
