-- ===== src/Worker/Communication/Offers.antt =====
-- An offer that the registry passes on, in the main loop of crates/worker/src/communication.rs.
use decentralized_llm_infere.Base.{
  ℕ, ◌≡◌, refl, true, false, Option, none, some, List, String, ◌↔◌, ◌⊎◌, inl, inr, arith,
  contains_key, nat_key, panicked,
}
use decentralized_llm_infere.Registry.Client.{answer, offered}
use decentralized_llm_infere.P2p.Node.{RemoteConn}
use decentralized_llm_infere.P2p.Node.Peers.{on_offer-Joins}
use decentralized_llm_infere.Worker.Communication.{Msg, WorkerCommunication, on_registry}

module _ {C F : Type 0} (ops : RemoteConn C) (encode : Msg → List ℕ)
    (decode : List ℕ → Option Msg) where
  -- The main loop panics on an offer exactly when the node has a connection of that number already,
  -- the offer cannot be read, or the new connection's loop over `pop_outgoing` panics.
  pub on_registry_panics_iff :
      (n : ℕ) (from sdp : String) (conn : ℕ) (fresh : String → ℕ × C × String)
      (w : WorkerCommunication C F)
      → (on_registry n ops encode decode (offered from conn sdp) fresh w ≡ panicked) ↔ (
          (contains_key conn w.network.conns ≡ true)
          ⊎ ((contains_key conn w.network.conns ≡ false)
              × (((ops.accept_offer sdp (fresh from).1).0 ≡ none)
                  ⊎ ((text : String) × ((ops.accept_offer sdp (fresh from).1).0 ≡ some text)
                      × (ops.drain (ops.accept_offer sdp (fresh from).1).1 ≡ panicked)))))
  unfolding on_registry answer
  on_registry_panics_iff n from sdp conn fresh w =
      elim (on_offer-Joins ops encode decode conn (fresh from).1 (fresh from).2 from sdp
        w.network) [
          | inl (known, run) ↦ (λ e. inl known, λ h. rw run refl)
          | inr (inl (unknown, garbled, (network, run, conns, nodes))) ↦
              (λ e. inr (unknown, inl garbled), λ h. rw run refl)
          | inr (inr (text, unknown, read, inl (drained, run))) ↦
              (λ e. inr (unknown, inr (text, read, drained)), λ h. rw run refl)
          | inr (inr (text, unknown, read, inr (outs, c, network, drained, run, joins))) ↦ (
            λ e. absurd (ground (arith, e, run)),
            λ h. elim h [
              | inl known ↦ absurd (ground (arith, known, unknown))
              | inr (_, inl garbled) ↦ absurd (ground (arith, garbled, read))
              | inr (_, inr (_, _, failed)) ↦ absurd (ground (arith, failed, drained))
            ],
          )
        ]
