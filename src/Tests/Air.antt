-- ===== src/Tests/Air.antt =====
-- A frame of three bytes in chunks of two of which the first one is sent: the theorem on the
-- bytes in the air of crates/p2p-network at concrete inputs.
use decentralized_llm_infere.Base.{none, ◌+◌, ◌%◌, ◌^◌, ◌<◌, ◌≡◌, List, [], ◌∷◌, arith}
use decentralized_llm_infere.P2p.Buffer.{Bincode, ConnectionChunk, slices, new}
use decentralized_llm_infere.Base.{nat_key}
use decentralized_llm_infere.P2p.Buffer.Sizes.{awaited}
use decentralized_llm_infere.P2p.Buffer.Account.{queued}
use decentralized_llm_infere.P2p.Buffer.Air.{Event, pushed, sends, run, Fits, run-new_even}

abbrev bincode : Bincode
bincode = record { serialize = λ c. []; deserialize = λ bytes. none; serialized_size = λ c. 8 }

small : (c : ConnectionChunk) → bincode.serialized_size c < 2 ^ 64
small c = omega arith

-- The first chunk is in the air, the second one is queued.
abbrev half : List Event
half = pushed (1 ∷ 2 ∷ 3 ∷ []) ∷ sends ∷ []

half-Fits : Fits bincode 2 100 small 0 half
unfolding slices
half-Fits = (omega arith, omega arith, tt)

run-new_even_example :
    ((run bincode 2 100 small half new).in_air_size
        + (queued bincode 2 100 small (run bincode 2 100 small half new).high_priority
            + queued bincode 2 100 small (run bincode 2 100 small half new).low_priority))
      % 2 ^ 64
    ≡ awaited (run bincode 2 100 small half new).outgoings % 2 ^ 64
run-new_even_example = run-new_even bincode 2 100 small half half-Fits
