-- ===== src/P2p/Buffer/Acks.antt =====
-- Acknowledgements in on_received of crates/p2p-network/src/node/remote_conn.rs.
use decentralized_llm_infere.Base.{
  ℕ, ◌≡◌, refl, none, some, length, ◌==◌, arith, get, get-insert_same, get-remove, nat_key,
  Option-cases, Bool-cases, inl, inr, ◌⊎◌,
}
use decentralized_llm_infere.Base.BTreeMap
use decentralized_llm_infere.P2p.Buffer.{
  ConnectionBuffer, OutgoingFrame, chunk_ack, on_chunk, settle,
}

-- No chunk of this number of this frame waits for an acknowledgement.
abbrev pub Settled : ℕ → ℕ → ConnectionBuffer → Type 0
Settled f i b =
    (get f b.outgoings ≡ none)
    ⊎ ((frame : OutgoingFrame) × (get f b.outgoings ≡ some frame)
        × (BTreeMap.get i frame.chunks ≡ none))

on_chunk-Settled :
    (f i n : ℕ) (b : ConnectionBuffer) → Settled f i b → on_chunk (chunk_ack f i n) b ≡ b
unfolding on_chunk settle
on_chunk-Settled f i n b (inl e) = rw (on_chunk, e) refl
on_chunk-Settled f i n b (inr (frame, e, gone)) = rw (on_chunk, e, settle, gone) refl

settle-Settled :
    (f i : ℕ) (frame : OutgoingFrame) (b : ConnectionBuffer)
    → get f b.outgoings ≡ some frame
    → Settled f i (settle f i frame b)
unfolding settle
settle-Settled f i frame b e = elim (Option-cases (BTreeMap.get i frame.chunks)) [
  | inl gone ↦ rw (settle, gone) (inr (frame, e, gone))
  | inr (size, held) ↦
      let left = BTreeMap.remove i frame.chunks in
      let gone : BTreeMap.get i left ≡ none =
        ground (arith, BTreeMap.get-remove i i frame.chunks) in
      elim (Bool-cases (length left == 0)) [
        | inl last ↦ rw (settle, held, last) (inl (ground (arith, get-remove f f b.outgoings)))
        | inr more ↦
            rw (settle, held, more)
              (inr (record { chunks = left }, get-insert_same f _ b.outgoings, gone))
      ]
]

ack-Settled : (f i n : ℕ) (b : ConnectionBuffer) → Settled f i (on_chunk (chunk_ack f i n) b)
unfolding on_chunk
ack-Settled f i n b = elim (Option-cases (get f b.outgoings)) [
  | inl e ↦ rw (on_chunk, e) (inl e)
  | inr (frame, e) ↦ rw (on_chunk, e) (settle-Settled f i frame b e)
]

-- An acknowledgement that comes again changes nothing: the size of its chunk is taken off the bytes
-- in the air once.
pub on_chunk-chunk_ack_twice :
    (f i n : ℕ) (b : ConnectionBuffer)
    → on_chunk (chunk_ack f i n) (on_chunk (chunk_ack f i n) b) ≡ on_chunk (chunk_ack f i n) b
on_chunk-chunk_ack_twice f i n b =
    on_chunk-Settled f i n (on_chunk (chunk_ack f i n) b) (ack-Settled f i n b)
