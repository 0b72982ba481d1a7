-- ===== src/Tests/RemoteConn.antt =====
-- A connection whose library counts the writes: the theorems on RemoteConn at concrete inputs.
use decentralized_llm_infere.Base.{
  ℕ, ◌+◌, ◌<◌, ◌^◌, ◌≡◌, refl, true, none, some, [], ◌∷◌, length, arith, done,
}
use decentralized_llm_infere.P2p.Buffer.{
  Bincode, ConnectionBuffer, ConnectionChunk, chunk, on_chunk, on_received, pop_chunk,
}
use decentralized_llm_infere.P2p.Buffer as Buffer
use decentralized_llm_infere.P2p.Node.{message}
use decentralized_llm_infere.P2p.RemoteConn.{Rtc, RemoteConn, on_channel_data}
use decentralized_llm_infere.P2p.RemoteConn.Flush.{on_channel_data-Flushed}

-- Whatever is received is a frame of one chunk.
abbrev pub bincode : Bincode
bincode = record {
  serialize = λ c. 7 ∷ [];
  deserialize = λ bytes. some (chunk 3 0 1 bytes);
  serialized_size = λ c. 8;
}

small : (c : ConnectionChunk) → bincode.serialized_size c < 2 ^ 64
small c = omega arith

abbrev pub rtc : Rtc ℕ ℕ
rtc = record {
  clock = λ r. 0;
  poll_output = λ r. (none, r);
  handle_timeout = λ now r. (true, r);
  handle_receive = λ now from to bytes r. (true, r);
  write = λ channel bytes r. (some (some (length bytes)), r + 1);
  close_data_channel = λ channel r. r;
  create_offer = λ r. (none, r);
  accept_offer = λ offer r. (some "answer", r);
  parse_answer = λ answer. true;
  accept_answer = λ pending answer r. (true, r);
}

abbrev pub conn : RemoteConn ℕ ℕ
conn = record {
  remote = "b";
  rtc = 0;
  pending = none;
  queue = [];
  channel = some 4;
  timeout = none;
  buffer = Buffer.new;
}

abbrev heard : ConnectionBuffer
heard = on_chunk (chunk 3 0 1 (5 ∷ [])) Buffer.new

hears : on_received bincode 4096 150000 (5 ∷ []) Buffer.new ≡ some heard
unfolding on_received
hears = refl

on_channel_data-Flushed_example :
    (c : RemoteConn ℕ ℕ) × (on_channel_data rtc bincode (5 ∷ []) conn ≡ done c)
    × (pop_chunk bincode 4096 150000 c.buffer ≡ none)
    × (c.channel ≡ some 4)
    × (c.queue ≡ message (5 ∷ []) ∷ [])
unfolding on_chunk Buffer.new
on_channel_data-Flushed_example =
    on_channel_data-Flushed rtc bincode small (λ channel bytes r. refl) (5 ∷ []) 4 conn heard refl
      hears
