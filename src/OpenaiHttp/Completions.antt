-- ===== src/OpenaiHttp/Completions.antt =====
-- chat_completions of crates/openai-http/src/api_chat.rs: a request for a chat, and the task that
-- passes the texts of the chat on to the body of the answer, for a client that stays to the end. A
-- channel holds any number of texts here; where a sender has to wait for room, it sends later.
pub mod Relay
use decentralized_llm_infere.Base.{
  ℕ, Bool, true, false, Option, none, some, List, [], ◌∷◌, ◌++◌, if◌then◌else◌,
}
use mathlib.Core.Option
use decentralized_llm_infere.Models.{Text, ChatCfg}
use decentralized_llm_infere.Protocol.OpenAi.{ChatCompletionRequest}
use decentralized_llm_infere.OpenaiHttp.Reader as Reader
use decentralized_llm_infere.OpenaiHttp.Reader.{AsyncReadRx, given, poll_read}

-- `answer_tx` is the number of a channel.
pub record ChatStartRequest (F D : Type 0) : Type 0 where
  pub session : ℕ
  pub cfg : ChatCfg F D
  pub req : ChatCompletionRequest F
  pub answer_tx : ℕ

pub data Response : Type 0 where
  service_unavailable : Response
  bad_request : Response
  event_stream : (plain_text : Option Bool) → Response

-- `unwrap_or`
abbrev unwrap_or {ℓ} : {A : Type ℓ} → A → Option A → A
unwrap_or d none = d
unwrap_or d (some a) = a

module _ {F D : Type 0} (temperature : D) (repeat_penalty : F) (to_f64 : F → D) where
  -- `ChatCfg::default()`, whose floats are 0.8 and 1.1.
  unfoldable pub default : ChatCfg F D
  default = record {
    seed = 1234;
    temperature = temperature;
    top_k = none;
    top_p = none;
    max_len = 1024;
    repeat_penalty = repeat_penalty;
    repeat_last_n = 128;
  }

  -- The configuration that a request asks for.
  unfoldable pub cfg_of : ChatCompletionRequest F → ChatCfg F D
  cfg_of req = record default {
    temperature = unwrap_or temperature (Option.map to_f64 req.temperature);
    max_len = unwrap_or 1024 req.max_tokens;
  }

  -- With a new session, a new channel, and a channel to the worker that may be closed.
  unfoldable pub chat_completions :
      {Q : Type 0}
      → (ChatStartRequest F D → Q → Bool × Q)
      → ℕ
      → ℕ
      → ChatCompletionRequest F
      → Q
      → Response × Q
  chat_completions send session tx req q =
      let (ok, q') =
        send (record { session = session; cfg = cfg_of req; req = req; answer_tx = tx }) q in
      if unwrap_or false req.stream
      then (if ok then event_stream req.plain_text else service_unavailable, q')
      else (bad_request, q)

-- A chat that streams: the texts that wait in its channel, whether the chat dropped its end of it,
-- and the reader of the body.
pub record Completion : Type 0 where
  pub rx : List Text
  pub ended : Bool
  pub stream : AsyncReadRx

unfoldable pub new : Completion
new = record { rx = []; ended = false; stream = Reader.new }

-- What happens to it: the chat answers or ends, the task does a round, the client polls the body.
pub data Event : Type 0 where
  answered : Text → Event
  chat_ends relays : Event
  polled : (remaining : ℕ) → Event

module _ (json : Text → Text) (into_bytes : Text → List ℕ) where
  -- What the task makes of a text.
  unfoldable pub response : Option Bool → Text → List ℕ
  response none out = into_bytes (json out)
  response (some false) out = into_bytes (json out)
  response (some true) out = into_bytes out

  -- A round of the task: it sends a text on, waits for one, or ends, which drops its channel.
  unfoldable pub relay : Option Bool → List Text → Bool → AsyncReadRx → List Text × AsyncReadRx
  relay plain_text (out ∷ rx) ended stream =
      (rx, record stream { queue = stream.queue ++ response plain_text out ∷ [] })
  relay plain_text [] true stream = ([], record stream { closed = true })
  relay plain_text [] false stream = ([], stream)

  -- The events in their order, with all the bytes that the client got.
  unfoldable pub run : Option Bool → List Event → Completion → List ℕ × Completion
  run plain_text [] s = ([], s)
  run plain_text (answered out ∷ es) s = run plain_text es (record s { rx = s.rx ++ out ∷ [] })
  run plain_text (chat_ends ∷ es) s = run plain_text es (record s { ended = true })
  run plain_text (relays ∷ es) s =
      let (rx, stream) = relay plain_text s.rx s.ended s.stream in
      run plain_text es (record s { rx = rx; stream = stream })
  run plain_text (polled remaining ∷ es) s =
      let (p, stream) = poll_read remaining s.stream in
      let (bytes, s') = run plain_text es (record s { stream = stream }) in (given p ++ bytes, s')
