-- ===== src/OpenaiHttp/Reader.antt =====
-- AsyncReadRx of crates/openai-http/src/api_chat.rs: the messages of a channel as a stream of bytes.
pub mod Delivery
use decentralized_llm_infere.Base.{
  ℕ, ◌+◌, ◌-◌, Bool, true, false, Option, none, some, List, [], ◌∷◌, ◌++◌, length, take, drop, ltb,
  leb, min, if◌then◌else◌,
}

-- The reader, with the messages in its channel (`rx`, as bytes) and whether every sender is gone.
pub record AsyncReadRx : Type 0 where
  pub queue : List (List ℕ)
  pub closed : Bool
  pub buffer : Option (List ℕ)
  pub offset : ℕ

unfoldable pub new : AsyncReadRx
new = record { queue = []; closed = false; buffer = none; offset = 0 }

-- `Poll<io::Result<()>>`, with the bytes that were put into the caller's buffer.
pub data Poll : Type 0 where
  ready : List ℕ → Poll
  pending : Poll

-- The first part of a round of the loop: the bytes that the buffer gives, and what is left of it.
unfoldable pub read_buffer : ℕ → Option (List ℕ) → ℕ → List ℕ × Option (List ℕ) × ℕ
read_buffer remaining none offset = ([], none, offset)
read_buffer remaining (some b) offset =
    let to_read = min (length b - offset) remaining in
    let bytes = take to_read (drop offset b) in
    if leb (length b) (offset + to_read)
    then (bytes, none, 0)
    else (bytes, some b, offset + to_read)

-- What is left to do where the buffer gave nothing and the channel has no message.
abbrev pub at_end : Bool → Poll
at_end true = ready []
at_end false = pending

-- The loop: a round for each message that it takes, so it ends.
unfoldable pub poll_loop : ℕ → List (List ℕ) → Bool → Option (List ℕ) → ℕ → Poll × AsyncReadRx
poll_loop remaining [] closed buffer offset =
    let (bytes, buffer', offset') = read_buffer remaining buffer offset in
    let s : AsyncReadRx = record {
      queue = [];
      closed = closed;
      buffer = buffer';
      offset = offset';
    } in
    if ltb 0 (length bytes) then (ready bytes, s) else (at_end closed, s)
poll_loop remaining (m ∷ ms) closed buffer offset =
    let (bytes, buffer', offset') = read_buffer remaining buffer offset in
    let s : AsyncReadRx = record {
      queue = m ∷ ms;
      closed = closed;
      buffer = buffer';
      offset = offset';
    } in
    let rest = poll_loop remaining ms closed (some m) 0 in
    if ltb 0 (length bytes) then (ready bytes, s) else rest

-- `poll_read` with so much room in the caller's buffer.
unfoldable pub poll_read : ℕ → AsyncReadRx → Poll × AsyncReadRx
poll_read remaining s = poll_loop remaining s.queue s.closed s.buffer s.offset

-- What happens to a reader.
pub data Event : Type 0 where
  sent : List ℕ → Event
  senders_gone : Event
  polled : (remaining : ℕ) → Event

-- The bytes that a poll gave.
abbrev pub given : Poll → List ℕ
given (ready bytes) = bytes
given pending = []

-- The events in their order, with all the bytes that were given.
unfoldable pub run : List Event → AsyncReadRx → List ℕ × AsyncReadRx
run [] s = ([], s)
run (sent m ∷ es) s = run es (record s { queue = s.queue ++ m ∷ [] })
run (senders_gone ∷ es) s = run es (record s { closed = true })
run (polled remaining ∷ es) s =
    let (p, s') = poll_read remaining s in let (bytes, s'') = run es s' in (given p ++ bytes, s'')
