-- ===== src/P2p/Buffer/Account.antt =====
-- The bytes in the air of crates/p2p-network/src/node/remote_conn.rs: what push_frame, pop_send and
-- on_received do to the account of them.
use decentralized_llm_infere.Base.{
  ℕ, suc, ◌+◌, ◌≤◌, ◌<◌, ◌≡◌, ◌^◌, ◌%◌, refl, subst, true, none, some, List, [], ◌∷◌, ◌++◌, length,
  ◌==◌, arith, HashMap, get, insert, remove, nat_key, Uniq, insert-Uniq, remove-Uniq, get-insert,
  get-remove, Option-cases, Bool-cases, inl, inr, ℕ_discrete,
}
use mathlib.Core.Option.{some-injective}
use decentralized_llm_infere.Base.BTreeMap
use decentralized_llm_infere.Base.BTreeMap.{BTreeMap, SortedFrom, insert-SortedFrom}
use decentralized_llm_infere.P2p.Buffer.{
  Bincode, ConnectionBuffer, ConnectionChunk, OutgoingFrame, chunk, chunk_ack, in_air_size_of,
  sub64, settle, new,
}
use decentralized_llm_infere.P2p.Buffer.Sizes.{
  total, awaited, total-remove, awaited-insert, awaited-remove,
}

-- The chunks of a frame have growing numbers, and sizes of 64 bits.
pub record FrameIsValid (frame : OutgoingFrame) : Type 0 where
  pub sorted : SortedFrom 0 frame.chunks
  pub small : (k v : ℕ) → BTreeMap.get k frame.chunks ≡ some v → v < 2 ^ 64

lower-SortedFrom :
    (low high : ℕ) (m : BTreeMap ℕ) → low ≤ high → SortedFrom high m → SortedFrom low m
lower-SortedFrom low high [] h s = tt
lower-SortedFrom low high ((j, w) ∷ m) h s = (omega (arith, s.0), s.1)

remove-SortedFrom :
    (k low : ℕ) (m : BTreeMap ℕ) → SortedFrom low m → SortedFrom low (BTreeMap.remove k m)
unfolding BTreeMap.remove
remove-SortedFrom k low [] s = tt
remove-SortedFrom k low ((j, w) ∷ m) s =
    let behind = remove-SortedFrom k (suc j) m s.1 in
    elim (Bool-cases (k == j)) [
      | inl e ↦
          rw e (lower-SortedFrom low (suc j) (BTreeMap.remove k m) (omega (arith, s.0)) behind)
      | inr e ↦ rw e (s.0, behind)
    ]

remove-FrameIsValid :
    (k : ℕ) (frame : OutgoingFrame)
    → FrameIsValid frame
    → FrameIsValid (record { chunks = BTreeMap.remove k frame.chunks })
remove-FrameIsValid k frame v = record {
  sorted = remove-SortedFrom k 0 frame.chunks v.sorted;
  small = λ j w h. ground (arith, BTreeMap.get-remove k j frame.chunks, v.small j w);
}

total-empty : (m : BTreeMap ℕ) → (length m == 0) ≡ true → total m ≡ 0
unfolding total
total-empty [] h = refl
total-empty (e ∷ m) h = absurd (ground (arith, h))

get-remove_inv :
    (f g : ℕ) (m : HashMap ℕ OutgoingFrame) {w : OutgoingFrame}
    → get g (remove f m) ≡ some w
    → get g m ≡ some w
get-remove_inv f g m h = ground (arith, get-remove f g m)

pub insert-frames :
    (f : ℕ) (frame : OutgoingFrame) (m : HashMap ℕ OutgoingFrame)
    → FrameIsValid frame
    → ((g : ℕ) (w : OutgoingFrame) → get g m ≡ some w → FrameIsValid w)
    → (g : ℕ) (w : OutgoingFrame) → get g (insert f frame m) ≡ some w
    → FrameIsValid w
insert-frames f frame m v vs g w h = elim (ℕ_discrete g f) [
  | yes e ↦
      let same : frame ≡ w = some-injective frame w (ground (arith, get-insert f g frame m)) in
      subst FrameIsValid same v
  | no e ↦ vs g w (ground (arith, get-insert f g frame m))
]

module _ (bincode : Bincode) (chunk_size air_limit : ℕ)
    (small : (c : ConnectionChunk) → bincode.serialized_size c < 2 ^ 64) where
  -- The sizes of the chunks of a queue.
  unfoldable pub queued : List ConnectionChunk → ℕ
  queued [] = 0
  queued (c ∷ cs) = in_air_size_of bincode chunk_size air_limit c + queued cs

  pub queued-append : (cs ds : List ConnectionChunk) → queued (cs ++ ds) ≡ queued cs + queued ds
  unfolding queued
  queued-append [] ds = omega arith
  queued-append (c ∷ cs) ds = omega (arith, queued-append cs ds)

  pub in_air_size_of-lt :
      (c : ConnectionChunk) → in_air_size_of bincode chunk_size air_limit c < 2 ^ 64
  unfolding in_air_size_of
  in_air_size_of-lt (chunk f i n bytes) = small (chunk f i n bytes)
  in_air_size_of-lt (chunk_ack f i n) = omega arith

  -- The bytes in the air and those of the queues are the sizes that wait for acknowledgements.
  pub record Account (b : ConnectionBuffer) : Type 0 where
    pub even :
        (b.in_air_size + (queued b.high_priority + queued b.low_priority)) % 2 ^ 64
        ≡ awaited b.outgoings % 2 ^ 64
    pub bounded : b.in_air_size < 2 ^ 64
    pub uniq : Uniq b.outgoings
    pub later : (f : ℕ) → b.frame_id_seed ≤ f → get f b.outgoings ≡ none
    pub frames :
        (f : ℕ) (frame : OutgoingFrame) → get f b.outgoings ≡ some frame → FrameIsValid frame

  pub new-Account : Account new
  unfolding new queued awaited get
  new-Account = record {
    even = refl;
    bounded = omega arith;
    uniq = tt;
    later = λ f h. refl;
    frames = λ f frame h. absurd (ground (arith, h));
  }

  pub settle-Account :
      (f i : ℕ) (frame : OutgoingFrame) (b : ConnectionBuffer)
      → Account b
      → get f b.outgoings ≡ some frame
      → Account (settle f i frame b)
  unfolding settle sub64
  settle-Account f i frame b a at = elim (Option-cases (BTreeMap.get i frame.chunks)) [
    | inl q ↦ rw (settle, q) a
    | inr (size, q) ↦
        let v = a.frames f frame at in
        let left = BTreeMap.remove i frame.chunks in
        let taken = total-remove i size 0 frame.chunks v.sorted q in
        let fits = v.small i size q in
        elim (Bool-cases (length left == 0)) [
          | inl e ↦
              let none_left : total left ≡ 0 = total-empty left e in
              let gone = awaited-remove f frame b.outgoings a.uniq at in
              rw (settle, q, e)
                (record {
                  even = omega (arith, a.even, a.bounded, taken, fits, none_left, gone);
                  bounded = omega arith;
                  uniq = remove-Uniq f b.outgoings a.uniq;
                  later = λ g h. ground (arith, get-remove f g b.outgoings, a.later g h);
                  frames = λ g w h. a.frames g w (get-remove_inv f g b.outgoings h);
                })
          | inr e ↦
              let left_frame : OutgoingFrame = record { chunks = left } in
              let put = awaited-insert f left_frame frame b.outgoings at in
              rw (settle, q, e)
                (record {
                  even = omega (arith, a.even, a.bounded, taken, fits, put);
                  bounded = omega arith;
                  uniq = insert-Uniq f left_frame b.outgoings a.uniq;
                  later =
                      λ g h. ground (arith, get-insert f g left_frame b.outgoings, a.later g h, at);
                  frames = λ g w h.
                      insert-frames f left_frame b.outgoings (remove-FrameIsValid i frame v)
                        a.frames g w h;
                })
        ]
  ]
