-- ===== src/Control/Workers.antt =====
-- p2p_start, p2p_stop and p2p_status of bin/openai-server/src/api_control.rs, with the life of the
-- worker tasks that they control (bin/openai-server/src/worker.rs).
pub mod Restart
use decentralized_llm_infere.Base.{
  ℕ, zero, suc, ◌+◌, Bool, true, false, Option, none, some, List, [], ◌∷◌, String, string_key,
  string_dec, nat_key, ite, HashMap, get, insert, remove, contains_key, values, if◌then◌else◌,
  Outcome, done, panicked, expect, ◌>>=◌,
}
use decentralized_llm_infere.Protocol.OpenAi.{Model}
use decentralized_llm_infere.OpenaiHttp.Store.{ModelStore, add_model, remove_model, has_sender}

-- A worker task: it loads its model, then it is in the loop of `run_model_worker_internal`, then
-- behind that loop, and then it is over.
pub data Phase : Type 0 where
  loading running leaving over : Phase

-- `WorkerStatus`, by the numbers that the status names.
pub record WorkerStatus : Type 0 where
  pub ready : Bool
  pub peers : List String
  pub sessions : ℕ

pub record Worker : Type 0 where
  pub model : String
  pub phase : Phase
  pub status : WorkerStatus

-- `ModelState`, where the number of the worker stands for the channel to it.
pub record ModelState : Type 0 where
  pub model : String
  pub from_layer : ℕ
  pub to_layer : ℕ
  pub worker : ℕ

-- `P2pState`, with the tasks that run beside it.
pub record P2pState : Type 0 where
  pub store : ModelStore
  pub models : HashMap String ModelState
  pub workers : HashMap ℕ Worker
  pub seed : ℕ

pub record P2pStart : Type 0 where
  pub model : String
  pub from_layer : ℕ
  pub to_layer : ℕ
  pub private_key : String

pub data Response : Type 0 where
  ok : Response
  bad_request : String → Response

abbrev described : String → String → Model
described id owned_by = record { id = id; object = "model"; created = 0; owned_by = owned_by }

-- The arms of `run_model_worker`: the description under which a model is added to the store.
unfoldable pub model_of : String → Option Model
model_of model = ite (string_dec model "phi3") (some (described "phi3" "Microsoft")) (
    ite (string_dec model "llama32-1b") (some (described "llama32-1b" "unsloth")) (
      ite (string_dec model "llama32-3b") (some (described "llama32-3b" "unsloth")) (
        ite (string_dec model "llama32-vision-11b") (some (described "llama32-11b" "unsloth"))
          (ite (string_dec model "fake") (some (described "fake" "fake")) none))))

unfoldable pub set_phase : ℕ → Phase → Worker → P2pState → P2pState
set_phase id phase w s = record s { workers = insert id (record w { phase = phase }) s.workers }

-- `p2p_start`; `valid_key` is `LocalAccount::from_private_key`.
unfoldable pub p2p_start : (String → Bool) → P2pStart → P2pState → Outcome (Response × P2pState)
p2p_start valid_key body s =
    if contains_key body.model s.models
    then done (bad_request "Model already started", s)
    else (if valid_key body.private_key
        then done (
          ok,
          record s {
            models =
                insert body.model
                  (record {
                    model = body.model;
                    from_layer = body.from_layer;
                    to_layer = body.to_layer;
                    worker = s.seed;
                  })
                  s.models;
            workers =
                insert s.seed
                  (record {
                    model = body.model;
                    phase = loading;
                    status = record { ready = false; peers = []; sessions = 0 };
                  })
                  s.workers;
            seed = suc s.seed;
          },
        )
        else panicked)

-- The answer of the worker to `WorkerControl::Stop`: `none` where it is not in its loop yet, so that
-- the handler waits. A worker that has left its loop does not answer, and the handler panics.
unfoldable pub stop_worker : ℕ → Option Worker → P2pState → Outcome (Option P2pState)
stop_worker id none s = panicked
stop_worker id (some w) s = elim w.phase [
  | loading ↦ done none
  | running ↦ done (some (set_phase id leaving w s))
  | leaving ↦ panicked
  | over ↦ panicked
]

-- What follows the answer.
unfoldable pub stopped : String → Option P2pState → Option (Response × P2pState)
stopped model none = none
stopped model (some s) = some (ok, record s { models = remove model s.models })

unfoldable pub p2p_stop : String → P2pState → Outcome (Option (Response × P2pState))
p2p_stop model s = elim (get model s.models) [
  | none ↦ done (some (bad_request "Model not started", s))
  | some state ↦
      stop_worker state.worker (get state.worker s.workers) s >>= λ r. done (stopped model r)
]

pub record ModelStatus : Type 0 where
  pub status : String
  pub model : String
  pub from_layer : ℕ
  pub to_layer : ℕ
  pub peers : List String
  pub sessions : ℕ

-- The answer of a worker to `WorkerControl::Status`, without the wallet.
unfoldable pub status_of : ModelState → Option Worker → Outcome (Option ModelStatus)
status_of state none = panicked
status_of state (some w) = elim w.phase [
  | loading ↦ done none
  | running ↦ done (
      some (record {
        status = if w.status.ready then "ready" else "incomplete";
        model = state.model;
        from_layer = state.from_layer;
        to_layer = state.to_layer;
        peers = w.status.peers;
        sessions = w.status.sessions;
      }))
  | leaving ↦ panicked
  | over ↦ panicked
]

unfoldable pub statuses : List ModelState → HashMap ℕ Worker → Outcome (Option (List ModelStatus))
statuses [] workers = done (some [])
statuses (m ∷ ms) workers =
    let rest = statuses ms workers in
    status_of m (get m.worker workers) >>= λ st. elim st [
      | none ↦ done none
      | some st ↦ rest >>= λ sts. elim sts [ none ↦ done none | some sts ↦ done (some (st ∷ sts)) ]
    ]

-- `p2p_status`: `none` where a worker is not in its loop yet.
unfoldable pub p2p_status : P2pState → Outcome (Option (List ModelStatus))
p2p_status s = statuses (values s.models) s.workers

-- The steps of a task: it has loaded its model and adds it to the store (a model that it does not
-- know panics the task), its loop ends by itself, or because the channel of its chats has no sender
-- any more, or it removes its model from the store, which drops the sender that is there.
pub data TaskStep : Type 0 where
  loaded closed chats_closed left : TaskStep

unfoldable pub task_step : TaskStep → ℕ → Worker → P2pState → P2pState
task_step loaded id w s = elim (model_of w.model) [
  | none ↦ set_phase id over w s
  | some m ↦ record (set_phase id running w s) { store = add_model id m s.store }
]
task_step closed id w s = set_phase id leaving w s
task_step chats_closed id w s = if has_sender id s.store then s else set_phase id leaving w s
task_step left id w s = elim (model_of w.model) [
  | none ↦ s
  | some m ↦ record (set_phase id over w s) { store = remove_model m.id s.store }
]

-- The phase in which a task takes a step.
unfoldable pub before : TaskStep → Phase
before loaded = loading
before closed = running
before chats_closed = running
before left = leaving
