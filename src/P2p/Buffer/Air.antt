-- ===== src/P2p/Buffer/Air.antt =====
-- A history of ConnectionBuffer of crates/p2p-network/src/node/remote_conn.rs: the bytes in the air
-- are those that were sent and wait for their acknowledgements.
use decentralized_llm_infere.Base.{
  ℕ, suc, ◌+◌, ◌<◌, ◌≡◌, ◌^◌, ◌%◌, refl, ap, ◌∙◌, Option, none, some, List, [], ◌∷◌, length, arith,
  nat_key, Option-cases, inl, inr, ◌⊎◌,
}
use decentralized_llm_infere.P2p.Buffer.{
  Bincode, ConnectionBuffer, ConnectionChunk, slices, on_chunk, pop_chunk, pop_recv, push_frame,
  new,
}
use decentralized_llm_infere.P2p.Buffer.Sizes.{awaited}
use decentralized_llm_infere.P2p.Buffer.Account.{queued, Account, new-Account}
use decentralized_llm_infere.P2p.Buffer.Transfers.{
  on_chunk-Account, pop_chunk-Account, on_chunk-seed, pop_chunk-seed,
}
use decentralized_llm_infere.P2p.Buffer.Framing.{push_frame-Account, push_frame-seed}

-- What happens to a buffer: a frame is pushed, a chunk is received, the next chunk is sent, a frame
-- is taken.
pub data Event : Type 0 where
  pushed : List ℕ → Event
  received : ConnectionChunk → Event
  sends takes : Event

-- The buffer behind `pop_chunk`.
abbrev pub behind :
    ConnectionBuffer → Option (ConnectionChunk × ConnectionBuffer) → ConnectionBuffer
behind b none = b
behind b (some (c, b')) = b'

outs-cases :
    (outs : List (List ℕ))
    → (outs ≡ []) ⊎ ((frame : List ℕ) × (rest : List (List ℕ)) × (outs ≡ frame ∷ rest))
outs-cases [] = inl refl
outs-cases (frame ∷ rest) = inr (frame, rest, refl)

module _ (bincode : Bincode) (chunk_size air_limit : ℕ)
    (small : (c : ConnectionChunk) → bincode.serialized_size c < 2 ^ 64) where
  -- The buffer behind the events in their order.
  unfoldable pub run : List Event → ConnectionBuffer → ConnectionBuffer
  run [] b = b
  run (pushed bytes ∷ es) b = run es (push_frame bincode chunk_size air_limit bytes b)
  run (received c ∷ es) b = run es (on_chunk c b)
  run (sends ∷ es) b = run es (behind b (pop_chunk bincode chunk_size air_limit b))
  run (takes ∷ es) b = run es (pop_recv b).1

  -- The numbers of the frames, from one on, fit into 32 bits, and those of their chunks into 16.
  abbrev pub Fits : ℕ → List Event → Type 0
  Fits seed [] = Unit
  Fits seed (pushed bytes ∷ es) =
      (seed + 1 < 2 ^ 32)
      × (length (slices (length bytes) chunk_size bytes) < suc (2 ^ 16))
      × Fits (suc seed) es
  Fits seed (received c ∷ es) = Fits seed es
  Fits seed (sends ∷ es) = Fits seed es
  Fits seed (takes ∷ es) = Fits seed es

  pop_recv-Account :
      (b : ConnectionBuffer)
      → Account bincode chunk_size air_limit small b
      → Account bincode chunk_size air_limit small (pop_recv b).1
        × ((pop_recv b).1.frame_id_seed ≡ b.frame_id_seed)
  unfolding pop_recv
  pop_recv-Account b a = elim (outs-cases b.outs) [
    | inl e ↦ rw (pop_recv, e) (a, refl)
    | inr (frame, rest, e) ↦
        rw (pop_recv, e)
          (
            record {
              even = a.even;
              bounded = a.bounded;
              uniq = a.uniq;
              later = a.later;
              frames = a.frames;
            },
            refl,
          )
  ]

  run-Account :
      (es : List Event) (b : ConnectionBuffer) (n : ℕ)
      → Account bincode chunk_size air_limit small b
      → b.frame_id_seed ≡ n
      → Fits n es
      → Account bincode chunk_size air_limit small (run es b)
  unfolding run
  run-Account [] b n a at fits = a
  run-Account (pushed bytes ∷ es) b n a at (seed, chunks, fits) =
      let seed' : b.frame_id_seed + 1 < 2 ^ 32 = omega (arith, seed, at) in
      run-Account es (push_frame bincode chunk_size air_limit bytes b) (suc n)
        (push_frame-Account bincode chunk_size air_limit small bytes b a seed' chunks)
        (push_frame-seed bincode chunk_size air_limit small bytes b seed' ∙ ap suc at) fits
  run-Account (received c ∷ es) b n a at fits =
      run-Account es (on_chunk c b) n (on_chunk-Account bincode chunk_size air_limit small c b a)
        (on_chunk-seed bincode chunk_size air_limit small c b ∙ at) fits
  run-Account (sends ∷ es) b n a at fits =
      elim (Option-cases (pop_chunk bincode chunk_size air_limit b)) [
        | inl e ↦ rw e (run-Account es b n a at fits)
        | inr ((c, b'), e) ↦ rw e (
            run-Account es b' n (pop_chunk-Account bincode chunk_size air_limit small b b' c e a)
              (pop_chunk-seed bincode chunk_size air_limit small b b' c e ∙ at) fits)
      ]
  run-Account (takes ∷ es) b n a at fits =
      let (a', same) = pop_recv-Account b a in run-Account es (pop_recv b).1 n a' (same ∙ at) fits

  -- Let the sizes of chunks have 64 bits. After any history of a new buffer, in which frames are
  -- pushed, chunks and acknowledgements received in any order, chunks sent and frames taken, with
  -- fewer than 2^32 frames of at most 2^16 chunks each: the bytes in the air, with the sizes of the
  -- chunks that are still queued, are modulo 2^64 the sizes of all chunks that wait for an
  -- acknowledgement.
  pub run-new_even :
      (es : List Event)
      → Fits 0 es
      → ((run es new).in_air_size
            + (queued bincode chunk_size air_limit small (run es new).high_priority
                + queued bincode chunk_size air_limit small (run es new).low_priority))
          % 2 ^ 64
        ≡ awaited (run es new).outgoings % 2 ^ 64
  unfolding new
  run-new_even es fits =
      (run-Account es new 0 (new-Account bincode chunk_size air_limit small) refl fits).even

  -- After such a history, once nothing is queued and every frame is acknowledged, no byte is counted
  -- as in the air: the whole limit is there for what is sent next.
  pub run-new_idle :
      (es : List Event)
      → Fits 0 es
      → (run es new).high_priority ≡ []
      → (run es new).low_priority ≡ []
      → (run es new).outgoings ≡ []
      → (run es new).in_air_size ≡ 0
  unfolding new queued awaited
  run-new_idle es fits high low gone =
      let a = run-Account es new 0 (new-Account bincode chunk_size air_limit small) refl fits in
      omega (
        arith,
        a.even,
        a.bounded,
        ap (queued bincode chunk_size air_limit small) high,
        ap (queued bincode chunk_size air_limit small) low,
        ap awaited gone,
      )
