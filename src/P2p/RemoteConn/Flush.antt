-- ===== src/P2p/RemoteConn/Flush.antt =====
-- What pop_outgoing_buffer of crates/p2p-network/src/node/remote_conn.rs leaves in the buffer.
use decentralized_llm_infere.Base.{
  ℕ, zero, suc, ◌<◌, ◌≤◌, ◌≡◌, ◌^◌, refl, ap, ◌∙◌, true, none, some, List, [], ◌++◌, map, length,
  ◌==◌, arith, done, Option-cases, inl, inr,
}
use decentralized_llm_infere.P2p.Buffer.{
  Bincode, ConnectionBuffer, ConnectionChunk, pop_front, pop_chunk, pop_send, push_frame,
  on_received,
}
use decentralized_llm_infere.P2p.Node.{message}
use decentralized_llm_infere.P2p.Buffer.Sending.{Serves, pop_front-Serves}
use decentralized_llm_infere.P2p.Buffer.Transfers.{pop_chunk_inv}
use decentralized_llm_infere.P2p.RemoteConn.{
  Rtc, RemoteConn, waiting, written, flush, pop_outgoing_buffer, send_data, on_channel_data,
}

waiting-Serves :
    (c : ConnectionChunk) (b b' : ConnectionBuffer) → Serves c b b' → waiting b ≡ suc (waiting b')
waiting-Serves c b b' (inl (high, low)) = omega (arith, ap length high, ap length low)
waiting-Serves c b b' (inr (high, high', low)) =
    omega (arith, ap length high, ap length high', ap length low)

module _ {R P : Type 0} (lib : Rtc R P) (bincode : Bincode)
    (small : (c : ConnectionChunk) → bincode.serialized_size c < 2 ^ 64)
    (writes : (channel : ℕ) (bytes : List ℕ) (r : R)
      → (lib.write channel bytes r).0 ≡ some (some (length bytes))) where
  pop_chunk-waiting :
      (b b' : ConnectionBuffer) (c : ConnectionChunk)
      → pop_chunk bincode 4096 150000 b ≡ some (c, b')
      → waiting b ≡ suc (waiting b')
  pop_chunk-waiting b b' c h =
      let (first, e, same) = pop_chunk_inv bincode 4096 150000 small b b' c h in
      let less = waiting-Serves first b (pop_front b) (pop_front-Serves first b e).0 in
      less ∙ ap (λ (z : ConnectionBuffer). suc (waiting z)) same

  same_length : (n : ℕ) → (n == n) ≡ true
  same_length n = ground arith

  flush_lem :
      (n channel : ℕ) (c : RemoteConn R P)
      → waiting c.buffer ≤ n
      → (c' : RemoteConn R P) × (flush lib bincode n channel c ≡ done c')
        × (pop_chunk bincode 4096 150000 c'.buffer ≡ none)
        × (c'.channel ≡ c.channel)
        × (c'.queue ≡ c.queue)
  unfolding flush written pop_send
  flush_lem zero channel c h = elim (Option-cases (pop_chunk bincode 4096 150000 c.buffer)) [
    | inl e ↦ (c, refl, e, refl, refl)
    | inr ((first, b'), e) ↦ absurd (omega (arith, h, pop_chunk-waiting c.buffer b' first e))
  ]
  flush_lem (suc n) channel c h = elim (Option-cases (pop_chunk bincode 4096 150000 c.buffer)) [
    | inl e ↦ (c, rw (flush, pop_send, e) refl, e, refl, refl)
    | inr ((first, b'), e) ↦
        let bytes = bincode.serialize first in
        let c1 : RemoteConn R P = record c {
          rtc = (lib.write channel bytes c.rtc).1;
          buffer = b';
        } in
        let (c', run, none_left, same, queue) =
          flush_lem n channel c1 (omega (arith, h, pop_chunk-waiting c.buffer b' first e)) in
        (
          c',
          rw (flush, pop_send, e, writes channel bytes c.rtc, same_length (length bytes)) run,
          none_left,
          same,
          queue,
        )
  ]

  flush-pop_outgoing_buffer :
      (channel : ℕ) (c c' : RemoteConn R P)
      → c.channel ≡ some channel
      → flush lib bincode (waiting c.buffer) channel c ≡ done c'
      → pop_outgoing_buffer lib bincode c ≡ done c'
  unfolding pop_outgoing_buffer
  flush-pop_outgoing_buffer channel c c' e run = rw (pop_outgoing_buffer, e) run

  pop_outgoing_buffer_lem :
      (channel : ℕ) (c : RemoteConn R P)
      → c.channel ≡ some channel
      → (c' : RemoteConn R P) × (pop_outgoing_buffer lib bincode c ≡ done c')
        × (pop_chunk bincode 4096 150000 c'.buffer ≡ none)
        × (c'.channel ≡ c.channel)
        × (c'.queue ≡ c.queue)
  pop_outgoing_buffer_lem channel c e =
      let (c', run, none_left, same, queue) =
        flush_lem (waiting c.buffer) channel c (omega arith) in
      (c', flush-pop_outgoing_buffer channel c c' e run, none_left, same, queue)

  -- Let the library write every chunk to the channel, and sizes have 64 bits. Over an open channel,
  -- `send_data` does not panic and does not stop early: it leaves no chunk in the queues that the
  -- limit on the bytes in the air would let out, and nothing of what the connection puts out changes.
  send_data-Flushed :
      (bytes : List ℕ) (channel : ℕ) (c : RemoteConn R P)
      → c.channel ≡ some channel
      → (c' : RemoteConn R P) × (send_data lib bincode bytes c ≡ done c')
        × (pop_chunk bincode 4096 150000 c'.buffer ≡ none)
        × (c'.channel ≡ c.channel)
        × (c'.queue ≡ c.queue)
  unfolding send_data
  send_data-Flushed bytes channel c e =
      pop_outgoing_buffer_lem channel
        (record c { buffer = push_frame bincode 4096 150000 bytes c.buffer }) e

  -- Let the library write every chunk to the channel, and sizes have 64 bits. Where data of an open
  -- channel can be read, each frame that it completes is put out as a message, in the order in which
  -- they were completed; the loop that then sends what is queued ends without a panic, within one
  -- round for each queued chunk, and leaves no chunk that the limit would let out.
  pub on_channel_data-Flushed :
      (bytes : List ℕ) (channel : ℕ) (c : RemoteConn R P) (b : ConnectionBuffer)
      → c.channel ≡ some channel
      → on_received bincode 4096 150000 bytes c.buffer ≡ some b
      → (c' : RemoteConn R P) × (on_channel_data lib bincode bytes c ≡ done c')
        × (pop_chunk bincode 4096 150000 c'.buffer ≡ none)
        × (c'.channel ≡ c.channel)
        × (c'.queue ≡ c.queue ++ map message b.outs)
  unfolding on_channel_data
  on_channel_data-Flushed bytes channel c b e read =
      let c1 : RemoteConn R P = record c {
        queue = c.queue ++ map message b.outs;
        buffer = record b { outs = [] };
      } in
      let (c', run, none_left, same, queue) = pop_outgoing_buffer_lem channel c1 e in
      (c', rw (on_channel_data, read) run, none_left, same, queue)
