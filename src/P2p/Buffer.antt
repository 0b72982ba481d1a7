-- ===== src/P2p/Buffer.antt =====
-- ConnectionBuffer of crates/p2p-network/src/node/remote_conn.rs: frames cut into chunks, a limit
-- on the bytes in the air, acknowledgements, and frames put together again. `bincode` is a
-- parameter. A byte is a number; `usize` is 64 bits wide.
pub mod Chunks
pub mod Delivery
pub mod Account
pub mod Acks
pub mod Sizes
pub mod Air
pub mod Transfers
pub mod Framing
pub mod Sending
pub mod Pieces
use decentralized_llm_infere.Base.{
  ℕ, zero, suc, ◌+◌, ◌-◌, ◌≤◌, ◌≡◌, ◌^◌, ◌%◌, Bool, true, false, Option, none, some, List, [], ◌∷◌,
  ◌++◌, map, length, take, drop, leb, ◌==◌, if◌then◌else◌, u16, u32, u64, HashMap, get, insert,
  remove, nat_key, Outcome, done, panicked, ◌>>=◌,
}
use mathlib.Core.List.{flatten}
use decentralized_llm_infere.Base.BTreeMap
use decentralized_llm_infere.Base.BTreeMap.{BTreeMap}

pub data ConnectionChunk : Type 0 where
  chunk : (frame_id chunk_id chunk_count : ℕ) → (payload : List ℕ) → ConnectionChunk
  chunk_ack : (frame_id chunk_id chunk_count : ℕ) → ConnectionChunk

-- What the code uses of `bincode`.
pub record Bincode : Type 0 where
  pub serialize : ConnectionChunk → List ℕ
  pub deserialize : List ℕ → Option ConnectionChunk
  pub serialized_size : ConnectionChunk → ℕ

pub record IncomingFrame : Type 0 where
  pub chunk_count : ℕ
  pub chunks : BTreeMap (List ℕ)

pub record OutgoingFrame : Type 0 where
  pub chunks : BTreeMap ℕ

pub record ConnectionBuffer : Type 0 where
  pub frame_id_seed : ℕ
  pub high_priority : List ConnectionChunk
  pub low_priority : List ConnectionChunk
  pub incomings : HashMap ℕ IncomingFrame
  pub outgoings : HashMap ℕ OutgoingFrame
  pub outs : List (List ℕ)
  pub in_air_size : ℕ

-- `ConnectionBuffer::default()`
unfoldable pub new : ConnectionBuffer
new = record {
  frame_id_seed = 0;
  high_priority = [];
  low_priority = [];
  incomings = [];
  outgoings = [];
  outs = [];
  in_air_size = 0;
}

-- `[T]::chunks`: slices of `size` elements, the last one shorter. The length is enough fuel for a
-- size that is not 0.
unfoldable pub slices : ℕ → ℕ → List ℕ → List (List ℕ)
slices zero size bytes = []
slices (suc fuel) size [] = []
slices (suc fuel) size (b ∷ bytes) =
    take size (b ∷ bytes) ∷ slices fuel size (drop size (b ∷ bytes))

-- `usize` subtraction
abbrev pub sub64 : ℕ → ℕ → ℕ
sub64 a b = (a + 2 ^ 64 - b) % 2 ^ 64

-- `self.incomings.entry(frame_id).or_insert_with(..)`
unfoldable pub incoming : ℕ → ℕ → ConnectionBuffer → IncomingFrame
incoming frame_id chunk_count b = elim (get frame_id b.incomings) [
  | none ↦ record { chunk_count = chunk_count; chunks = [] }
  | some frame ↦ frame
]

-- A chunk of a frame of several chunks: the frame is passed on once it has its chunks.
unfoldable pub collect : ℕ → ℕ → ℕ → List ℕ → ConnectionBuffer → ConnectionBuffer
collect frame_id chunk_id chunk_count bytes b =
    let old = incoming frame_id chunk_count b in
    let frame = record old { chunks = BTreeMap.insert chunk_id bytes old.chunks } in
    if length frame.chunks == frame.chunk_count
    then record b {
      incomings = remove frame_id b.incomings;
      outs = b.outs ++ flatten (map (λ e. e.1) frame.chunks) ∷ [];
    }
    else record b { incomings = insert frame_id frame b.incomings }

-- An acknowledged chunk of a known frame.
unfoldable pub settle : ℕ → ℕ → OutgoingFrame → ConnectionBuffer → ConnectionBuffer
settle frame_id chunk_id frame b = elim (BTreeMap.get chunk_id frame.chunks) [
  | none ↦ b
  | some size ↦
      let left = BTreeMap.remove chunk_id frame.chunks in
      record b {
        in_air_size = sub64 b.in_air_size size;
        outgoings =
            if length left == 0
            then remove frame_id b.outgoings
            else insert frame_id (record { chunks = left }) b.outgoings;
      }
]

unfoldable pub on_chunk : ConnectionChunk → ConnectionBuffer → ConnectionBuffer
on_chunk (chunk frame_id chunk_id chunk_count bytes) b =
    let b' = record b {
      high_priority = b.high_priority ++ chunk_ack frame_id chunk_id chunk_count ∷ [];
    } in
    if chunk_count == 1
    then record b' { outs = b.outs ++ bytes ∷ [] }
    else collect frame_id chunk_id chunk_count bytes b'
on_chunk (chunk_ack frame_id chunk_id chunk_count) b = elim (get frame_id b.outgoings) [
  | none ↦ b
  | some frame ↦ settle frame_id chunk_id frame b
]

-- The end of the queue that is served first.
unfoldable pub front : List ConnectionChunk → List ConnectionChunk → Option ConnectionChunk
front (c ∷ high) low = some c
front [] (c ∷ low) = some c
front [] [] = none

unfoldable pub pop_front : ConnectionBuffer → ConnectionBuffer
pop_front b = elim b.high_priority [
  | c ∷ high ↦ record b { high_priority = high }
  | [] ↦ elim b.low_priority [ c ∷ low ↦ record b { low_priority = low } | [] ↦ b ]
]

unfoldable pub pop_recv : ConnectionBuffer → Option (List ℕ) × ConnectionBuffer
pop_recv b = elim b.outs [ [] ↦ (none, b) | frame ∷ rest ↦ (some frame, record b { outs = rest }) ]

module _ (bincode : Bincode) (chunk_size air_limit : ℕ) where
  unfoldable pub in_air_size_of : ConnectionChunk → ℕ
  in_air_size_of (chunk f i n bytes) = bincode.serialized_size (chunk f i n bytes)
  in_air_size_of (chunk_ack f i n) = 0

  -- The loop of `push_frame` over the slices from number `i` on: the frame's record of sizes, and
  -- the queue of low priority.
  unfoldable pub push_chunks :
      ℕ
      → ℕ
      → ℕ
      → List (List ℕ)
      → BTreeMap ℕ × List ConnectionChunk
      → BTreeMap ℕ × List ConnectionChunk
  push_chunks frame_id chunk_count i [] (sizes, low) = (sizes, low)
  push_chunks frame_id chunk_count i (bytes ∷ rest) (sizes, low) =
      let c = chunk frame_id (u16 i) chunk_count bytes in
      push_chunks frame_id chunk_count (suc i) rest
        (BTreeMap.insert (u16 i) (in_air_size_of c) sizes, low ++ c ∷ [])

  unfoldable pub push_frame : List ℕ → ConnectionBuffer → ConnectionBuffer
  push_frame bytes b =
      let frame_id = b.frame_id_seed in
      let b' = record b { frame_id_seed = u32 (frame_id + 1) } in
      let only = chunk frame_id 0 1 bytes in
      let cut = slices (length bytes) chunk_size bytes in
      if leb (length bytes) chunk_size
      then record b' {
        outgoings =
            insert frame_id (record { chunks = BTreeMap.insert 0 (in_air_size_of only) [] })
              b.outgoings;
        high_priority = b.high_priority ++ only ∷ [];
      }
      else (let (sizes, low) = push_chunks frame_id (u16 (length cut)) 0 cut ([], b.low_priority) in
          record b' {
            low_priority = low;
            outgoings = insert frame_id (record { chunks = sizes }) b.outgoings;
          })

  -- `none` where the bytes are no chunk.
  unfoldable pub on_received : List ℕ → ConnectionBuffer → Option ConnectionBuffer
  on_received bytes b = elim (bincode.deserialize bytes) [
    | none ↦ none
    | some ob ↦ some (on_chunk ob b)
  ]

  -- The chunk that `pop_send` takes, before it is serialized.
  unfoldable pub pop_chunk : ConnectionBuffer → Option (ConnectionChunk × ConnectionBuffer)
  pop_chunk b = elim (front b.high_priority b.low_priority) [
    | none ↦ none
    | some first ↦
        let size = in_air_size_of first in
        if leb (u64 (size + b.in_air_size)) air_limit
        then some (first, record (pop_front b) { in_air_size = u64 (b.in_air_size + size) })
        else none
  ]

  unfoldable pub pop_send : ConnectionBuffer → Option (List ℕ × ConnectionBuffer)
  pop_send b = elim (pop_chunk b) [
    | none ↦ none
    | some (first, b') ↦ some (bincode.serialize first, b')
  ]
