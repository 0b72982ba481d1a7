-- ===== src/Tests/Network.antt =====
-- A frame of five bytes cut into chunks of two, and a request with its answer: the theorems on
-- crates/p2p-network and on the calls of crates/worker at concrete inputs.
use decentralized_llm_infere.Base.{
  ◌⊎◌, ◌+◌, ◌<◌, ◌≤◌, ◌^◌, ℕ, ◌≡◌, refl, none, some, List, [], ◌∷◌, ◌++◌, map, length, arith, true,
  false, Bool, insert, remove, ℕ_discrete, done, panicked, get, nat_key,
}
use mathlib.Core.List.{Permᴰ}
use decentralized_llm_infere.P2p.Buffer.{
  chunk, chunk_ack, on_chunk, front, pop_chunk, in_air_size_of, Bincode, ConnectionBuffer,
  ConnectionChunk, slices, push_frame,
}
use decentralized_llm_infere.P2p.Buffer.Sending.{Serves, pop_chunk-Serves}
use decentralized_llm_infere.P2p.Buffer as Buffer
use decentralized_llm_infere.P2p.Buffer.Pieces.{Piece, number}
use decentralized_llm_infere.P2p.Buffer.Delivery.{chunk_of, receive, push_frame-receive}
use decentralized_llm_infere.Worker.Rpc.{RpcRes, RpcClientRx, on_res, recv}
use decentralized_llm_infere.Worker.Matching.{Step, ask, answer, run, recv-on_res, Unanswered}

-- Sizes are those of the payloads; what a chunk is on the wire does not matter here.
abbrev bincode : Bincode
bincode = record { serialize = λ c. []; deserialize = λ bytes. none; serialized_size = λ c. 8 }

abbrev frame : List ℕ
frame = 1 ∷ 2 ∷ 3 ∷ 4 ∷ 5 ∷ []

abbrev pieces : List (List ℕ)
pieces = (1 ∷ 2 ∷ []) ∷ (3 ∷ 4 ∷ []) ∷ (5 ∷ []) ∷ []

-- The first two chunks overtake each other.
abbrev arrived : List Piece
arrived = (1, 3 ∷ 4 ∷ []) ∷ (0, 1 ∷ 2 ∷ []) ∷ (2, 5 ∷ []) ∷ []

frame-slices : slices 5 2 frame ≡ pieces
unfolding slices
frame-slices = refl

nothing_known : get Buffer.new.frame_id_seed Buffer.new.incomings ≡ none
unfolding Buffer.new get
nothing_known = refl

overtaken : Permᴰ (number 0 (slices 5 2 frame)) arrived
unfolding slices
overtaken = Permᴰ.swap refl refl

push_frame-receive_example :
    ((push_frame bincode 2 100 frame Buffer.new).low_priority
      ≡ Buffer.new.low_priority
        ++ map
            (chunk_of Buffer.new.frame_id_seed (length (slices 5 2 frame)))
            (number 0 (slices 5 2 frame)))
    × ((receive
          (map (chunk_of Buffer.new.frame_id_seed (length (slices 5 2 frame))) arrived)
          Buffer.new).outs
        ≡ Buffer.new.outs ++ frame ∷ [])
push_frame-receive_example =
    push_frame-receive bincode 2 100 frame Buffer.new Buffer.new arrived (omega arith) (omega arith)
      (omega arith) nothing_known overtaken

abbrev reply : ℕ → RpcRes
reply seq = record { seq = seq; success = true; payload = 9 ∷ [] }

abbrev stays : ℕ → Bool
stays tx = false

-- Another request is made and answered in between.
abbrev between : List Step
between = ask 4 "FORWARD" [] 22 ∷ answer stays (reply 2) ∷ []

abbrev start : RpcClientRx
start = record { seq_seed = 0; waits = [] }

others : Unanswered (recv {Node = ℕ} 4 "START" [] 11 start).0.1.seq between
unfolding recv
others = (λ e. omega arith, tt)

first_seq : (reply 1).seq ≡ (recv {Node = ℕ} 4 "START" [] 11 start).0.1.seq
unfolding recv
first_seq = refl

abbrev after : RpcClientRx
after = record { seq_seed = 2; waits = (1, 11) ∷ [] }

waiting : run between (recv {Node = ℕ} 4 "START" [] 11 start).1 ≡ done after
unfolding recv on_res get insert remove ℕ_discrete
waiting = refl

recv-on_res_example :
    (stays 11 ≡ false
      → (c'' : RpcClientRx) × (on_res stays (reply 1) after ≡ done (some (11, reply 1), c''))
        × (on_res stays (reply 1) c'' ≡ done (none, c'')))
    × (stays 11 ≡ true → on_res stays (reply 1) after ≡ panicked)
recv-on_res_example =
    recv-on_res 4 "START" [] 11 between start after stays stays (reply 1) (reply 1) (omega arith)
      others waiting first_seq refl

abbrev small_chunk : ConnectionChunk
small_chunk = chunk 7 0 3 (1 ∷ 2 ∷ [])

-- Fifty bytes are in the air, of a hundred.
abbrev busy : ConnectionBuffer
busy = record {
  frame_id_seed = 8;
  high_priority = [];
  low_priority = small_chunk ∷ [];
  incomings = [];
  outgoings = [];
  outs = [];
  in_air_size = 50;
}

busy-front : front busy.high_priority busy.low_priority ≡ some small_chunk
unfolding front
busy-front = refl

busy_fits : in_air_size_of bincode 2 100 small_chunk + busy.in_air_size < 2 ^ 64
unfolding in_air_size_of
busy_fits = omega arith

pop_chunk-Serves_example :
    ((pop_chunk bincode 2 100 busy ≡ none)
      × (100 < in_air_size_of bincode 2 100 small_chunk + busy.in_air_size))
    ⊎ ((b' : ConnectionBuffer) × (pop_chunk bincode 2 100 busy ≡ some (small_chunk, b'))
        × Serves small_chunk busy b'
        × (b'.in_air_size ≡ 50 + in_air_size_of bincode 2 100 small_chunk)
        × (b'.in_air_size ≤ 100))
pop_chunk-Serves_example = pop_chunk-Serves bincode 2 100 small_chunk busy busy-front busy_fits
