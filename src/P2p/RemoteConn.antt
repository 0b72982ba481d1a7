-- ===== src/P2p/RemoteConn.antt =====
-- RemoteConn of crates/p2p-network/src/node/remote_conn.rs: a connection over WebRTC. The library
-- (str0m) is a parameter, with the clock; the loop of pop_outgoing is over `poll_round`.
pub mod Flush
pub mod Connection
use decentralized_llm_infere.Base.{
  ℕ, zero, suc, ◌+◌, Bool, true, false, String, Option, none, some, List, [], ◌∷◌, ◌++◌, map,
  length, leb, ◌==◌, if◌then◌else◌, Outcome, done, panicked, ◌>>=◌,
}
use decentralized_llm_infere.P2p.Buffer as Buffer
use decentralized_llm_infere.P2p.Buffer.{
  Bincode, ConnectionBuffer, push_frame, on_received, pop_send,
}
use decentralized_llm_infere.P2p.Node.{RemoteConnOut, transmit, connected, message, disconnected}

-- `str0m::Event`
pub data RtcEvent : Type 0 where
  ice_disconnected : RtcEvent
  channel_open : (channel : ℕ) → RtcEvent
  channel_data : List ℕ → RtcEvent
  channel_close : RtcEvent
  other : RtcEvent

-- `str0m::Output`
pub data Output : Type 0 where
  timeout : ℕ → Output
  transmits : (source destination : ℕ) → List ℕ → Output
  event : RtcEvent → Output

-- What the code uses of `Rtc`, whose states are `R` and whose pending offers are `P`. The results of
-- `Option` are errors where they are `none`.
pub record Rtc (R P : Type 0) : Type 0 where
  pub clock : R → ℕ
  pub poll_output : R → Option Output × R
  pub handle_timeout : ℕ → R → Bool × R
  pub handle_receive : ℕ → ℕ → ℕ → List ℕ → R → Bool × R
  -- `channel(id)?.write(true, chunk)`: `none` without the channel, and then whether it fails.
  pub write : ℕ → List ℕ → R → Option (Option ℕ) × R
  pub close_data_channel : ℕ → R → R
  pub create_offer : R → Option (String × P) × R
  pub accept_offer : String → R → Option String × R
  pub parse_answer : String → Bool
  pub accept_answer : P → String → R → Bool × R

-- How a round of a loop ends.
pub data Next : Type 0 where
  returns : Option RemoteConnOut → Next
  continues : Next

pub record RemoteConn (R P : Type 0) : Type 0 where
  pub remote : String
  pub rtc : R
  pub pending : Option P
  pub queue : List RemoteConnOut
  pub channel : Option ℕ
  pub timeout : Option ℕ
  pub buffer : ConnectionBuffer

-- `RemoteConn::new`, with what the library made for the local addresses.
unfoldable pub new : {R P : Type 0} → String → R → RemoteConn R P
new remote rtc = record {
  remote = remote;
  rtc = rtc;
  pending = none;
  queue = [];
  channel = none;
  timeout = none;
  buffer = Buffer.new;
}

-- The chunks in the queues: each round of the loop takes one.
abbrev pub waiting : ConnectionBuffer → ℕ
waiting b = length b.high_priority + length b.low_priority

module _ {R P : Type 0} (lib : Rtc R P) (bincode : Bincode) where
  -- The rest of a round of `pop_outgoing_buffer`, behind the write: whether the loop goes on.
  unfoldable pub written : ℕ → Option (Option ℕ) → RemoteConn R P → Outcome (Bool × RemoteConn R P)
  written size none c = done (false, c)
  written size (some none) c = panicked
  written size (some (some n)) c = if n == size then done (true, c) else panicked

  -- The loop of `pop_outgoing_buffer`, of chunks of 4096 bytes, 150000 of them in the air.
  unfoldable pub flush : ℕ → ℕ → RemoteConn R P → Outcome (RemoteConn R P)
  flush zero channel c = done c
  flush (suc n) channel c = elim (pop_send bincode 4096 150000 c.buffer) [
    | none ↦ done c
    | some (bytes, buffer) ↦
        let (res, rtc) = lib.write channel bytes c.rtc in
        written (length bytes) res (record c { rtc = rtc; buffer = buffer }) >>= λ r. elim r.0 [
          | true ↦ flush n channel r.1
          | false ↦ done r.1
        ]
  ]

  unfoldable pub pop_outgoing_buffer : RemoteConn R P → Outcome (RemoteConn R P)
  pop_outgoing_buffer c = elim c.channel [
    | none ↦ done c
    | some channel ↦ flush (waiting c.buffer) channel c
  ]

  unfoldable pub send_data : List ℕ → RemoteConn R P → Outcome (RemoteConn R P)
  send_data bytes c =
      pop_outgoing_buffer (record c { buffer = push_frame bincode 4096 150000 bytes c.buffer })

  -- Whether the library took the tick.
  unfoldable pub on_tick : ℕ → RemoteConn R P → Bool × RemoteConn R P
  on_tick now c = elim c.timeout [
    | none ↦ (false, c)
    | some at ↦
        let (ok, rtc) = lib.handle_timeout now c.rtc in
        if leb at now then (ok, record c { timeout = none; rtc = rtc }) else (false, c)
  ]

  unfoldable pub on_data : ℕ → ℕ → ℕ → List ℕ → RemoteConn R P → Bool × RemoteConn R P
  on_data now from to bytes c =
      let (ok, rtc) = lib.handle_receive now from to bytes c.rtc in (ok, record c { rtc = rtc })

  unfoldable pub shutdown : RemoteConn R P → RemoteConn R P
  shutdown c = elim c.channel [
    | none ↦ c
    | some channel ↦ record c { channel = none; rtc = lib.close_data_channel channel c.rtc }
  ]

  -- The data of the channel: its frames are queued as messages, and what may be sent is sent.
  unfoldable pub on_channel_data : List ℕ → RemoteConn R P → Outcome (RemoteConn R P)
  on_channel_data bytes c =
      let buffer : ConnectionBuffer = elim (on_received bincode 4096 150000 bytes c.buffer) [
        | none ↦ c.buffer
        | some b ↦ b
      ] in
      pop_outgoing_buffer (record c {
        queue = c.queue ++ map message buffer.outs;
        buffer = record buffer { outs = [] };
      })

  unfoldable pub on_event : RtcEvent → RemoteConn R P → Outcome (RemoteConn R P)
  on_event ice_disconnected c = done (record c { queue = c.queue ++ disconnected ∷ [] })
  on_event (channel_open channel) c =
      done (record c { queue = c.queue ++ connected ∷ []; channel = some channel })
  on_event (channel_data bytes) c = on_channel_data bytes c
  on_event channel_close c = elim c.channel [
    | none ↦ done c
    | some channel ↦ done (record c { channel = none; queue = c.queue ++ disconnected ∷ [] })
  ]
  on_event other c = done c

  -- `Output::Timeout`, with an empty queue.
  unfoldable pub on_timeout : ℕ → RemoteConn R P → Next × RemoteConn R P
  on_timeout at c =
      let (ok, rtc) = lib.handle_timeout (lib.clock c.rtc) c.rtc in
      if leb at (lib.clock c.rtc)
      then (if ok then continues else returns none, record c { rtc = rtc })
      else (returns none, record c { timeout = some at })

  unfoldable pub on_output : Option Output → RemoteConn R P → Outcome (Next × RemoteConn R P)
  on_output none c = done (returns none, c)
  on_output (some (timeout at)) c = done (on_timeout at c)
  on_output (some (transmits source destination bytes)) c =
      done (continues, record c { queue = c.queue ++ transmit source destination bytes ∷ [] })
  on_output (some (event e)) c = on_event e c >>= λ c. done (continues, c)

  -- A round of the loop of `pop_outgoing`.
  unfoldable pub poll_round : RemoteConn R P → Outcome (Next × RemoteConn R P)
  poll_round c = elim c.queue [
    | out ∷ rest ↦ done (returns (some out), record c { queue = rest })
    | [] ↦ let (output, rtc) = lib.poll_output c.rtc in on_output output (record c { rtc = rtc })
  ]

  -- The offer, which the code expects.
  unfoldable pub create_offer : RemoteConn R P → Outcome (String × RemoteConn R P)
  create_offer c =
      let (made, rtc) = lib.create_offer c.rtc in
      elim made [
        | none ↦ panicked
        | some (offer, pending) ↦ done (offer, record c { rtc = rtc; pending = some pending })
      ]

  unfoldable pub accept_offer : String → RemoteConn R P → Option String × RemoteConn R P
  accept_offer offer c =
      let (answer, rtc) = lib.accept_offer offer c.rtc in (answer, record c { rtc = rtc })

  -- An answer that can be read takes the pending offer, also where it is not accepted.
  unfoldable pub on_answer : String → RemoteConn R P → Bool × RemoteConn R P
  on_answer answer c = if lib.parse_answer answer then accept c.pending else (false, c)
    where
      accept : Option P → Bool × RemoteConn R P
      accept none = (false, c)
      accept (some pending) =
          let (ok, rtc) = lib.accept_answer pending answer c.rtc in
          (ok, record c { rtc = rtc; pending = none })
