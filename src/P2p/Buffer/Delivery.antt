-- ===== src/P2p/Buffer/Delivery.antt =====
-- push_frame of one buffer and on_received of the other, in
-- crates/p2p-network/src/node/remote_conn.rs.
use decentralized_llm_infere.Base.{
  ℕ, suc, ◌+◌, ◌*◌, ◌≤◌, ◌<◌, ◌≡◌, ◌^◌, refl, sym, ap, ◌∙◌, subst, List, [], ◌∷◌, ◌++◌, map, length,
  arith, true, false, none, if◌then◌else◌, ◌==◌, leb, u16, get, get-insert_same, nat_key,
}
use mathlib.Core.List.{flatten, append_assoc, append-nil, Permᴰ}
use decentralized_llm_infere.Base.BTreeMap
use decentralized_llm_infere.Base.BTreeMap.{BTreeMap}
use decentralized_llm_infere.P2p.Buffer.{
  ConnectionChunk, chunk, Bincode, IncomingFrame, ConnectionBuffer, slices, incoming, collect,
  on_chunk, push_chunks, push_frame, in_air_size_of,
}
use decentralized_llm_infere.P2p.Buffer.Chunks.{flatten-slices, length-slices-le, length-slices-gt}
use decentralized_llm_infere.P2p.Buffer.Pieces.{
  Piece, number, insert_all, Fresh, insert_all-Perm, insert_all-number, map-number, length-number,
}

same_number : {ps qs : List Piece} → Permᴰ ps qs → length ps ≡ length qs
same_number (Permᴰ.trans first second) = same_number first ∙ same_number second
same_number (Permᴰ.swap e d) = refl
same_number (Permᴰ.cons e rest) = omega (arith, same_number rest)
same_number Permᴰ.nil = refl

-- The chunk of a piece of a frame.
abbrev pub chunk_of : ℕ → ℕ → Piece → ConnectionChunk
chunk_of frame_id chunk_count (i, bytes) = chunk frame_id i chunk_count bytes

-- The chunks of `on_received`, one after the other.
abbrev pub receive : List ConnectionChunk → ConnectionBuffer → ConnectionBuffer
receive [] b = b
receive (c ∷ cs) b = receive cs (on_chunk c b)

abbrev bytes_of : BTreeMap (List ℕ) → List ℕ
bytes_of m = flatten (map (λ e. e.1) m)

-- A frame of which `m` has come.
abbrev Partial : ℕ → ℕ → BTreeMap (List ℕ) → ConnectionBuffer → Type 0
Partial f n m b = incoming f n b ≡ record { chunk_count = n; chunks = m }

-- A chunk that is not the last one.
early :
    (f n i : ℕ) (bytes : List ℕ) (m : BTreeMap (List ℕ)) (b : ConnectionBuffer)
    → Partial f n m b
    → BTreeMap.get i m ≡ none
    → 1 < n
    → suc (length m) < n
    → Partial f n (BTreeMap.insert i bytes m) (on_chunk (chunk f i n bytes) b)
      × ((on_chunk (chunk f i n bytes) b).outs ≡ b.outs)
unfolding on_chunk collect incoming
early f n i bytes m b part fresh two few =
    let many : (n == 1) ≡ false = ground arith in
    let longer = BTreeMap.length-insert i bytes m fresh in
    let short : (length (BTreeMap.insert i bytes m) == n) ≡ false = ground arith in
    let frame : IncomingFrame = record { chunk_count = n; chunks = BTreeMap.insert i bytes m } in
    rw (many, part, short)
      (rw (get-insert_same f frame b.incomings, if◌then◌else◌, incoming) refl, refl)

-- The last chunk.
late :
    (f n i : ℕ) (bytes : List ℕ) (m : BTreeMap (List ℕ)) (b : ConnectionBuffer)
    → Partial f n m b
    → BTreeMap.get i m ≡ none
    → 1 < n
    → suc (length m) ≡ n
    → (on_chunk (chunk f i n bytes) b).outs ≡ b.outs ++ bytes_of (BTreeMap.insert i bytes m) ∷ []
unfolding on_chunk collect incoming
late f n i bytes m b part fresh two all =
    let many : (n == 1) ≡ false = ground arith in
    let longer = BTreeMap.length-insert i bytes m fresh in
    let full : (length (BTreeMap.insert i bytes m) == n) ≡ true = ground arith in
    rw (many, part, full) refl

receive_lem :
    (f n : ℕ) (p : Piece) (ps : List Piece) (m : BTreeMap (List ℕ)) (b : ConnectionBuffer)
    → Partial f n m b
    → Fresh (p ∷ ps) m
    → 1 < n
    → length (p ∷ ps) + length m ≡ n
    → (receive (map (chunk_of f n) (p ∷ ps)) b).outs
      ≡ b.outs ++ bytes_of (insert_all (p ∷ ps) m) ∷ []
receive_lem f n (i, bytes) [] m b part fresh two all =
    late f n i bytes m b part fresh.0 two (omega arith)
receive_lem f n (i, bytes) (q ∷ ps) m b part fresh two all =
    let longer = BTreeMap.length-insert i bytes m fresh.0 in
    let step = early f n i bytes m b part fresh.0 two (omega arith) in
    let ih =
      receive_lem f n q ps (BTreeMap.insert i bytes m) (on_chunk (chunk f i n bytes) b) step.0
        fresh.1 two (omega arith) in
    subst
      (λ r.
        (receive (map (chunk_of f n) (q ∷ ps)) (on_chunk (chunk f i n bytes) b)).outs
        ≡ r ++ bytes_of (insert_all ((i, bytes) ∷ q ∷ ps) m) ∷ [])
      step.1 ih

nothing_yet :
    (f n : ℕ) (b : ConnectionBuffer)
    → get f b.incomings ≡ none
    → incoming f n b ≡ record { chunk_count = n; chunks = [] }
unfolding incoming
nothing_yet f n b new = rw (new, incoming) refl

all_come :
    (f : ℕ) (cut : List (List ℕ)) (bytes : List ℕ) (ps : List Piece) (b : ConnectionBuffer)
    → 1 < length cut
    → flatten cut ≡ bytes
    → get f b.incomings ≡ none
    → Permᴰ (number 0 cut) ps
    → (receive (map (chunk_of f (length cut)) ps) b).outs ≡ b.outs ++ bytes ∷ []
all_come f cut bytes [] b two joined new perm =
    absurd (omega (arith, same_number perm, length-number 0 cut))
all_come f cut bytes (p ∷ ps) b two joined new perm =
    let ordered = insert_all-number 0 cut [] tt in
    let any = insert_all-Perm perm [] ordered.0 in
    let part = nothing_yet f (length cut) b new in
    let all : length (p ∷ ps) + 0 ≡ length cut =
      omega (arith, same_number perm, length-number 0 cut) in
    let got = receive_lem f (length cut) p ps [] b part any.0 two all in
    got
    ∙ ap (λ m. b.outs ++ bytes_of m ∷ []) (sym any.1 ∙ ordered.1)
    ∙ ap (λ s. b.outs ++ s ∷ []) (ap flatten (map-number 0 cut) ∙ joined)

module _ (bincode : Bincode) (chunk_size air_limit : ℕ) where
  push_chunks_lem :
      (f n i : ℕ) (ss : List (List ℕ)) (sizes : BTreeMap ℕ) (low : List ConnectionChunk)
      → i + length ss ≤ 2 ^ 16
      → (push_chunks bincode chunk_size air_limit f n i ss (sizes, low)).1
        ≡ low ++ map (chunk_of f n) (number i ss)
  unfolding push_chunks
  push_chunks_lem f n i [] sizes low h = sym (append-nil low)
  push_chunks_lem f n i (s ∷ ss) sizes low h =
      let small : u16 i ≡ i = omega arith in
      let c = chunk f (u16 i) n s in
      let size = in_air_size_of bincode chunk_size air_limit c in
      let ih =
        push_chunks_lem f n (suc i) ss (BTreeMap.insert (u16 i) size sizes) (low ++ c ∷ [])
          (omega arith) in
      ih
      ∙ append_assoc low (c ∷ []) (map (chunk_of f n) (number (suc i) ss))
      ∙ ap (λ j. low ++ chunk f j n s ∷ map (chunk_of f n) (number (suc i) ss)) small

  -- A frame that is longer than a chunk and has at most 65535 chunks (of a size that is not 0) is
  -- queued as chunks, in its order, and when they come in at a peer that has no unfinished frame of
  -- this number, in any order, that peer has exactly the frame behind the frames it had.
  pub push_frame-receive :
      (bytes : List ℕ) (a b : ConnectionBuffer) (ps : List Piece)
      → chunk_size < length bytes
      → 0 < chunk_size
      → length bytes ≤ 65535 * chunk_size
      → get a.frame_id_seed b.incomings ≡ none
      → Permᴰ (number 0 (slices (length bytes) chunk_size bytes)) ps
      → ((push_frame bincode chunk_size air_limit bytes a).low_priority
          ≡ a.low_priority
            ++ map
                (chunk_of a.frame_id_seed (length (slices (length bytes) chunk_size bytes)))
                (number 0 (slices (length bytes) chunk_size bytes)))
        × ((receive
              (map (chunk_of a.frame_id_seed (length (slices (length bytes) chunk_size bytes))) ps)
              b).outs
            ≡ b.outs ++ bytes ∷ [])
  unfolding push_frame
  push_frame-receive bytes a b ps long pos few new perm =
      let cut = slices (length bytes) chunk_size bytes in
      let n = length cut in
      let f = a.frame_id_seed in
      let long' : leb (length bytes) chunk_size ≡ false = ground arith in
      let count : n ≤ 65535 = length-slices-le 65535 (length bytes) chunk_size bytes few in
      let two : 1 < n = length-slices-gt (length bytes) chunk_size bytes pos long (omega arith) in
      let small : u16 n ≡ n = omega arith in
      let joined = flatten-slices (length bytes) chunk_size bytes pos (omega arith) in
      (
        rw long' (rw small (push_chunks_lem f n 0 cut [] a.low_priority (omega arith))),
        all_come f cut bytes ps b two joined new perm,
      )
