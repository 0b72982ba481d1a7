-- ===== src/P2p/Buffer/Framing.antt =====
-- What push_frame of crates/p2p-network/src/node/remote_conn.rs does to the account of the bytes in the
-- air.
use decentralized_llm_infere.Base.{
  ℕ, suc, ◌+◌, ◌≤◌, ◌<◌, ◌≡◌, ◌^◌, refl, none, List, [], ◌∷◌, ◌++◌, length, leb, u16, u32, arith,
  insert, nat_key, insert-Uniq, get-insert, Bool-cases, inl, inr,
}
use decentralized_llm_infere.Base.BTreeMap
use decentralized_llm_infere.Base.BTreeMap.{BTreeMap, SortedFrom, insert-SortedFrom}
use decentralized_llm_infere.P2p.Buffer.{
  Bincode, ConnectionBuffer, ConnectionChunk, OutgoingFrame, chunk, in_air_size_of, slices,
  push_chunks, push_frame,
}
use decentralized_llm_infere.P2p.Buffer.Sizes.{total, total-insert, awaited-insert_new}
use decentralized_llm_infere.P2p.Buffer.Account.{
  FrameIsValid, insert-frames, queued, queued-append, in_air_size_of-lt, Account,
}

insert-FrameIsValid :
    (k v : ℕ) (m : BTreeMap ℕ)
    → v < 2 ^ 64
    → FrameIsValid (record { chunks = m })
    → FrameIsValid (record { chunks = BTreeMap.insert k v m })
insert-FrameIsValid k v m h valid = record {
  sorted = insert-SortedFrom 0 k v m (omega arith) valid.sorted;
  small = λ j w e. ground (arith, BTreeMap.get-insert k j v m, valid.small j w);
}

get-empty : (k : ℕ) → BTreeMap.get {V = ℕ} k [] ≡ none
unfolding BTreeMap.get
get-empty k = refl

empty-FrameIsValid : FrameIsValid (record { chunks = [] })
unfolding BTreeMap.get
empty-FrameIsValid = record { sorted = tt; small = λ k v h. absurd (ground (arith, h)) }

module _ (bincode : Bincode) (chunk_size air_limit : ℕ)
    (small : (c : ConnectionChunk) → bincode.serialized_size c < 2 ^ 64) where
  push_chunks_lem :
      (f n i : ℕ) (cut : List (List ℕ)) (sizes : BTreeMap ℕ) (low : List ConnectionChunk)
      → i + length cut < suc (2 ^ 16)
      → ((k : ℕ) → i ≤ k → BTreeMap.get k sizes ≡ none)
      → FrameIsValid (record { chunks = sizes })
      → (sizes' : BTreeMap ℕ) × (low' : List ConnectionChunk) × (push_chunks bincode chunk_size
            air_limit f n i cut
            (sizes, low)
          ≡ (sizes', low'))
        × (total sizes' + queued bincode chunk_size air_limit small low
            ≡ total sizes + queued bincode chunk_size air_limit small low')
        × FrameIsValid (record { chunks = sizes' })
  unfolding push_chunks queued
  push_chunks_lem f n i [] sizes low fits fresh valid = (sizes, low, refl, refl, valid)
  push_chunks_lem f n i (bytes ∷ cut) sizes low fits fresh valid =
      let c = chunk f (u16 i) n bytes in
      let size = in_air_size_of bincode chunk_size air_limit c in
      let at : u16 i ≡ i = omega arith in
      let put = total-insert (u16 i) size sizes (rw at (fresh i (omega arith))) in
      let (sizes', low', run, even, valid') =
        push_chunks_lem f n (suc i) cut (BTreeMap.insert (u16 i) size sizes) (low ++ c ∷ [])
          (omega (arith, fits))
          (λ k h.
            ground (arith, BTreeMap.get-insert (u16 i) k size sizes, fresh k (omega arith), at))
          (insert-FrameIsValid (u16 i) size sizes
            (in_air_size_of-lt bincode chunk_size air_limit small c) valid) in
      let longer = queued-append bincode chunk_size air_limit small low (c ∷ []) in
      (sizes', low', run, omega (arith, even, put, longer), valid')

  -- A frame in `outgoings` whose sizes are those of the chunks that it adds to the queues.
  framed-Account :
      (b : ConnectionBuffer) (frame : OutgoingFrame) (high low : List ConnectionChunk)
      → Account bincode chunk_size air_limit small b
      → FrameIsValid frame
      → b.frame_id_seed + 1 < 2 ^ 32
      → queued bincode chunk_size air_limit small high
          + queued bincode chunk_size air_limit small low
        ≡ total frame.chunks
          + (queued bincode chunk_size air_limit small b.high_priority
              + queued bincode chunk_size air_limit small b.low_priority)
      → Account bincode chunk_size air_limit small (record b {
        frame_id_seed = u32 (b.frame_id_seed + 1);
        high_priority = high;
        low_priority = low;
        outgoings = insert b.frame_id_seed frame b.outgoings;
      })
  framed-Account b frame high low a valid seed sizes =
      let put =
        awaited-insert_new b.frame_id_seed frame b.outgoings
          (a.later b.frame_id_seed (omega arith)) in
      record {
        even = omega (arith, a.even, sizes, put);
        bounded = a.bounded;
        uniq = insert-Uniq b.frame_id_seed frame b.outgoings a.uniq;
        later = λ f h.
            ground (arith, get-insert b.frame_id_seed f frame b.outgoings, a.later f (omega arith));
        frames = insert-frames b.frame_id_seed frame b.outgoings valid a.frames;
      }

  pub push_frame-Account :
      (bytes : List ℕ) (b : ConnectionBuffer)
      → Account bincode chunk_size air_limit small b
      → b.frame_id_seed + 1 < 2 ^ 32
      → length (slices (length bytes) chunk_size bytes) < suc (2 ^ 16)
      → Account bincode chunk_size air_limit small (push_frame bincode chunk_size air_limit bytes b)
  unfolding push_frame queued total BTreeMap.insert
  push_frame-Account bytes b a seed fits =
      let only = chunk b.frame_id_seed 0 1 bytes in
      let size = in_air_size_of bincode chunk_size air_limit only in
      let cut = slices (length bytes) chunk_size bytes in
      elim (Bool-cases (leb (length bytes) chunk_size)) [
        | inl e ↦
            rw (push_frame, e)
              (framed-Account b (record { chunks = (0, size) ∷ [] }) (b.high_priority ++ only ∷ [])
                b.low_priority a
                (insert-FrameIsValid 0 size []
                  (in_air_size_of-lt bincode chunk_size air_limit small only) empty-FrameIsValid)
                seed
                (omega (
                  arith,
                  queued-append bincode chunk_size air_limit small b.high_priority (only ∷ []),
                )))
        | inr e ↦
            let (sizes, low, run, even, valid) =
              push_chunks_lem b.frame_id_seed (u16 (length cut)) 0 cut [] b.low_priority
                (omega (arith, fits)) (λ k h. get-empty k) empty-FrameIsValid in
            rw (push_frame, e, run)
              (framed-Account b (record { chunks = sizes }) b.high_priority low a valid seed
                (omega (arith, even)))
      ]

  pub push_frame-seed :
      (bytes : List ℕ) (b : ConnectionBuffer)
      → b.frame_id_seed + 1 < 2 ^ 32
      → (push_frame bincode chunk_size air_limit bytes b).frame_id_seed ≡ suc b.frame_id_seed
  unfolding push_frame
  push_frame-seed bytes b h = elim (Bool-cases (leb (length bytes) chunk_size)) [
    | inl e ↦ rw (push_frame, e) (omega arith)
    | inr e ↦ rw (push_frame, e) (omega arith)
  ]
