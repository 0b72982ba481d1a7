-- ===== src/P2p/Buffer/Transfers.antt =====
-- What on_received and pop_send of crates/p2p-network/src/node/remote_conn.rs do to the account of the
-- bytes in the air.
use decentralized_llm_infere.Base.{
  Bool, ℕ, ◌+◌, ◌<◌, ◌≡◌, ◌^◌, refl, sym, ap, subst, ◌∙◌, true, false, some, List, [], ◌∷◌, ◌++◌,
  leb, if◌then◌else◌, u64, arith, get, nat_key, Option-cases, Bool-cases, inl, inr,
}
use mathlib.Core.Option.{some-injective}
use decentralized_llm_infere.Base.BTreeMap
use decentralized_llm_infere.Base.BTreeMap.{BTreeMap, SortedFrom, insert-SortedFrom}
use decentralized_llm_infere.P2p.Buffer.{
  Bincode, ConnectionBuffer, ConnectionChunk, OutgoingFrame, chunk, chunk_ack, in_air_size_of,
  settle, collect, front, pop_front, on_chunk, pop_chunk,
}
use decentralized_llm_infere.P2p.Buffer.Sending.{Serves, chunks-cases, pop_front-Serves}
use decentralized_llm_infere.P2p.Buffer.Account.{queued, queued-append, Account, settle-Account}

pop_front-keeps :
    (b : ConnectionBuffer)
    → ((pop_front b).outgoings ≡ b.outgoings) × ((pop_front b).frame_id_seed ≡ b.frame_id_seed)
unfolding pop_front
pop_front-keeps b = elim (chunks-cases b.high_priority) [
  | inr (c, high, e) ↦ rw (pop_front, e) (refl, refl)
  | inl e ↦ elim (chunks-cases b.low_priority) [
    | inl e' ↦ rw (pop_front, e, e') (refl, refl)
    | inr (c, low, e') ↦ rw (pop_front, e, e') (refl, refl)
  ]
]

settle-seed :
    (f i : ℕ) (frame : OutgoingFrame) (b : ConnectionBuffer)
    → (settle f i frame b).frame_id_seed ≡ b.frame_id_seed
unfolding settle
settle-seed f i frame b = elim (Option-cases (BTreeMap.get i frame.chunks)) [
  | inl q ↦ rw (settle, q) refl
  | inr (size, q) ↦ rw (settle, q) refl
]

module _ (bincode : Bincode) (chunk_size air_limit : ℕ)
    (small : (c : ConnectionChunk) → bincode.serialized_size c < 2 ^ 64) where
  -- What the account is about.
  record Keeps (b b' : ConnectionBuffer) : Type 0 where
    air : b'.in_air_size ≡ b.in_air_size
    sizes :
        queued bincode chunk_size air_limit small b'.high_priority
          + queued bincode chunk_size air_limit small b'.low_priority
        ≡ queued bincode chunk_size air_limit small b.high_priority
          + queued bincode chunk_size air_limit small b.low_priority
    outgoings : b'.outgoings ≡ b.outgoings
    seed : b'.frame_id_seed ≡ b.frame_id_seed

  Keeps-Account :
      (b b' : ConnectionBuffer)
      → Keeps b b'
      → Account bincode chunk_size air_limit small b
      → Account bincode chunk_size air_limit small b'
  Keeps-Account b b' k a = record {
    even = rw (k.air, k.sizes, k.outgoings) a.even;
    bounded = rw k.air a.bounded;
    uniq = rw k.outgoings a.uniq;
    later = λ f h. rw k.outgoings (a.later f (rw k.seed at h));
    frames = λ f w h. a.frames f w (rw k.outgoings at h);
  }

  if-Keeps :
      (t : Bool) (b x y : ConnectionBuffer) → Keeps b x → Keeps b y → Keeps b (if t then x else y)
  if-Keeps true b x y p q = p
  if-Keeps false b x y p q = q

  collect-Keeps :
      (f i n : ℕ) (bytes : List ℕ) (b b' : ConnectionBuffer)
      → Keeps b b'
      → Keeps b (collect f i n bytes b')
  unfolding collect
  collect-Keeps f i n bytes b b' k =
      if-Keeps _ b _ _
        (record { air = k.air; sizes = k.sizes; outgoings = k.outgoings; seed = k.seed })
        (record { air = k.air; sizes = k.sizes; outgoings = k.outgoings; seed = k.seed })

  ack-Keeps :
      (f i n : ℕ) (b : ConnectionBuffer)
      → Keeps b (record b { high_priority = b.high_priority ++ chunk_ack f i n ∷ [] })
  unfolding queued in_air_size_of
  ack-Keeps f i n b = record {
    air = refl;
    sizes = omega (
      arith,
      queued-append bincode chunk_size air_limit small b.high_priority (chunk_ack f i n ∷ []),
    );
    outgoings = refl;
    seed = refl;
  }

  chunk-Keeps :
      (f i n : ℕ) (bytes : List ℕ) (b : ConnectionBuffer) → Keeps b (on_chunk (chunk f i n bytes) b)
  unfolding on_chunk
  chunk-Keeps f i n bytes b =
      let k = ack-Keeps f i n b in
      if-Keeps _ b _ _
        (record { air = k.air; sizes = k.sizes; outgoings = k.outgoings; seed = k.seed })
        (collect-Keeps f i n bytes b
          (record b { high_priority = b.high_priority ++ chunk_ack f i n ∷ [] }) k)

  pub on_chunk-Account :
      (c : ConnectionChunk) (b : ConnectionBuffer)
      → Account bincode chunk_size air_limit small b
      → Account bincode chunk_size air_limit small (on_chunk c b)
  unfolding on_chunk
  on_chunk-Account (chunk f i n bytes) b a = Keeps-Account b _ (chunk-Keeps f i n bytes b) a
  on_chunk-Account (chunk_ack f i n) b a = elim (Option-cases (get f b.outgoings)) [
    | inl e ↦ rw (on_chunk, e) a
    | inr (frame, e) ↦
        rw (on_chunk, e) (settle-Account bincode chunk_size air_limit small f i frame b a e)
  ]

  queued-Serves :
      (c : ConnectionChunk) (b b' : ConnectionBuffer)
      → Serves c b b'
      → queued bincode chunk_size air_limit small b.high_priority
          + queued bincode chunk_size air_limit small b.low_priority
        ≡ in_air_size_of bincode chunk_size air_limit c
          + (queued bincode chunk_size air_limit small b'.high_priority
              + queued bincode chunk_size air_limit small b'.low_priority)
  unfolding queued
  queued-Serves c b b' (inl (high, low)) = omega (
    arith,
    ap (queued bincode chunk_size air_limit small) high,
    ap (queued bincode chunk_size air_limit small) low,
  )
  queued-Serves c b b' (inr (high, high', low)) = omega (
    arith,
    ap (queued bincode chunk_size air_limit small) high,
    ap (queued bincode chunk_size air_limit small) high',
    ap (queued bincode chunk_size air_limit small) low,
  )

  sent-Account :
      (c : ConnectionChunk) (b : ConnectionBuffer)
      → front b.high_priority b.low_priority ≡ some c
      → Account bincode chunk_size air_limit small b
      → Account bincode chunk_size air_limit small (record (pop_front b) {
        in_air_size = u64 (b.in_air_size + in_air_size_of bincode chunk_size air_limit c);
      })
  sent-Account c b at a =
      let (serves, same) = pop_front-Serves c b at in
      let sizes = queued-Serves c b (pop_front b) serves in
      let (outgoings, seed) = pop_front-keeps b in
      record {
        even = rw outgoings (omega (arith, a.even, a.bounded, sizes));
        bounded = omega arith;
        uniq = rw outgoings a.uniq;
        later = λ f h. rw outgoings (a.later f (rw seed at h));
        frames = λ f w h. a.frames f w (rw outgoings at h);
      }

  pub pop_chunk_inv :
      (b b' : ConnectionBuffer) (c : ConnectionChunk)
      → pop_chunk bincode chunk_size air_limit b ≡ some (c, b')
      → (first : ConnectionChunk) × (front b.high_priority b.low_priority ≡ some first)
        × (record (pop_front b) {
          in_air_size = u64 (b.in_air_size + in_air_size_of bincode chunk_size air_limit first);
        }
            ≡ b')
  unfolding pop_chunk
  pop_chunk_inv b b' c h = elim (Option-cases (front b.high_priority b.low_priority)) [
    | inl e ↦ absurd (ground (arith, rw (pop_chunk, e) at h))
    | inr (first, e) ↦
        let room =
          leb (u64 (in_air_size_of bincode chunk_size air_limit first + b.in_air_size)) air_limit in
        elim (Bool-cases room) [
          | inl q ↦ (
            first,
            e,
            ap (λ (z : ConnectionChunk × ConnectionBuffer). z.1)
                (some-injective _ _ (rw (pop_chunk, e, q) at h)),
          )
          | inr q ↦ absurd (ground (arith, rw (pop_chunk, e, q) at h))
        ]
  ]

  pub pop_chunk-Account :
      (b b' : ConnectionBuffer) (c : ConnectionChunk)
      → pop_chunk bincode chunk_size air_limit b ≡ some (c, b')
      → Account bincode chunk_size air_limit small b
      → Account bincode chunk_size air_limit small b'
  pop_chunk-Account b b' c h a =
      let (first, e, same) = pop_chunk_inv b b' c h in
      subst (Account bincode chunk_size air_limit small) same (sent-Account first b e a)

  -- None of these numbers a frame.
  pub pop_chunk-seed :
      (b b' : ConnectionBuffer) (c : ConnectionChunk)
      → pop_chunk bincode chunk_size air_limit b ≡ some (c, b')
      → b'.frame_id_seed ≡ b.frame_id_seed
  pop_chunk-seed b b' c h =
      let (first, e, same) = pop_chunk_inv b b' c h in
      sym (ap (λ (z : ConnectionBuffer). z.frame_id_seed) same) ∙ (pop_front-keeps b).1

  pub on_chunk-seed :
      (c : ConnectionChunk) (b : ConnectionBuffer) → (on_chunk c b).frame_id_seed ≡ b.frame_id_seed
  unfolding on_chunk
  on_chunk-seed (chunk f i n bytes) b = (chunk-Keeps f i n bytes b).seed
  on_chunk-seed (chunk_ack f i n) b = elim (Option-cases (get f b.outgoings)) [
    | inl e ↦ rw (on_chunk, e) refl
    | inr (frame, e) ↦ rw (on_chunk, e) (settle-seed f i frame b)
  ]
