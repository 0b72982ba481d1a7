-- ===== src/P2p/Buffer/Sending.antt =====
-- pop_send of crates/p2p-network/src/node/remote_conn.rs: what is sent next, and how much may be in
-- the air.
use decentralized_llm_infere.Base.{
  ℕ, ◌+◌, ◌≤◌, ◌<◌, ◌≡◌, ◌^◌, refl, none, some, List, [], ◌∷◌, arith, ap, leb, u64, Bool-cases, inl,
  inr, ◌⊎◌,
}
use mathlib.Core.Option.{some-injective}
use decentralized_llm_infere.P2p.Buffer.{
  Bincode, ConnectionBuffer, ConnectionChunk, front, pop_front, pop_chunk, in_air_size_of,
}

-- The first chunk and the queues behind it: those of high priority go first.
abbrev pub Serves : ConnectionChunk → ConnectionBuffer → ConnectionBuffer → Type 0
Serves c b b' =
    ((b.high_priority ≡ c ∷ b'.high_priority) × (b'.low_priority ≡ b.low_priority))
    ⊎ ((b.high_priority ≡ []) × (b'.high_priority ≡ []) × (b.low_priority ≡ c ∷ b'.low_priority))

pub chunks-cases :
    (cs : List ConnectionChunk)
    → (cs ≡ []) ⊎ ((c : ConnectionChunk) × (rest : List ConnectionChunk) × (cs ≡ c ∷ rest))
chunks-cases [] = inl refl
chunks-cases (c ∷ cs) = inr (c, cs, refl)

pub pop_front-Serves :
    (c : ConnectionChunk) (b : ConnectionBuffer)
    → front b.high_priority b.low_priority ≡ some c
    → Serves c b (pop_front b) × ((pop_front b).in_air_size ≡ b.in_air_size)
unfolding front pop_front
pop_front-Serves c b at = elim (chunks-cases b.high_priority) [
  | inr (d, high, e) ↦
      let same : d ≡ c = some-injective _ _ (rw (front, e) at at) in
      (
        inl (rw (pop_front, e) (ap (λ x. x ∷ high) same), rw (pop_front, e) refl),
        rw (pop_front, e) refl,
      )
  | inl e ↦ elim (chunks-cases b.low_priority) [
    | inl none_low ↦ absurd (ground (arith, at, e, none_low))
    | inr (d, low, e') ↦
        let same : d ≡ c = some-injective _ _ (rw (front, e, e') at at) in
        (
          inr (e, rw (pop_front, e, e') e, rw (pop_front, e, e') (ap (λ x. x ∷ low) same)),
          rw (pop_front, e, e') refl,
        )
  ]
]

module _ (bincode : Bincode) (chunk_size air_limit : ℕ) where
  pop_chunk_fits :
      (c : ConnectionChunk) (b : ConnectionBuffer)
      → front b.high_priority b.low_priority ≡ some c
      → Serves c b (pop_front b)
      → (pop_front b).in_air_size ≡ b.in_air_size
      → in_air_size_of bincode chunk_size air_limit c + b.in_air_size < 2 ^ 64
      → ((pop_chunk bincode chunk_size air_limit b ≡ none)
          × (air_limit < in_air_size_of bincode chunk_size air_limit c + b.in_air_size))
        ⊎ ((b' : ConnectionBuffer) × (pop_chunk bincode chunk_size air_limit b ≡ some (c, b'))
            × Serves c b b'
            × (b'.in_air_size ≡ b.in_air_size + in_air_size_of bincode chunk_size air_limit c)
            × (b'.in_air_size ≤ air_limit))
  unfolding pop_chunk
  pop_chunk_fits c b at serves same small =
      let size = in_air_size_of bincode chunk_size air_limit c in
      let exact : u64 (size + b.in_air_size) ≡ size + b.in_air_size = omega arith in
      let exact' : u64 (b.in_air_size + size) ≡ b.in_air_size + size = omega arith in
      elim (Bool-cases (leb (u64 (size + b.in_air_size)) air_limit)) [
        | inl room ↦
            let b' : ConnectionBuffer = record (pop_front b) {
              in_air_size = u64 (b.in_air_size + size);
            } in
            inr (b', rw (pop_chunk, at, room) refl, serves, exact', ground arith)
        | inr full ↦ inl (rw (pop_chunk, at, full) refl, ground arith)
      ]

  -- Where the chunk that is first, those of high priority before the others, would make the bytes in
  -- the air exceed the limit, nothing is sent. Otherwise that chunk is taken from its queue, its size
  -- is added to the bytes in the air, and they stay within the limit. (The sum has 64 bits.)
  pub pop_chunk-Serves :
      (c : ConnectionChunk) (b : ConnectionBuffer)
      → front b.high_priority b.low_priority ≡ some c
      → in_air_size_of bincode chunk_size air_limit c + b.in_air_size < 2 ^ 64
      → ((pop_chunk bincode chunk_size air_limit b ≡ none)
          × (air_limit < in_air_size_of bincode chunk_size air_limit c + b.in_air_size))
        ⊎ ((b' : ConnectionBuffer) × (pop_chunk bincode chunk_size air_limit b ≡ some (c, b'))
            × Serves c b b'
            × (b'.in_air_size ≡ b.in_air_size + in_air_size_of bincode chunk_size air_limit c)
            × (b'.in_air_size ≤ air_limit))
  pop_chunk-Serves c b at small =
      let (serves, same) = pop_front-Serves c b at in pop_chunk_fits c b at serves same small
