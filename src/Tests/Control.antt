-- ===== src/Tests/Control.antt =====
-- The layers of a small model, a reader, and the control of workers: their theorems at concrete
-- inputs.
use decentralized_llm_infere.Base.{
  zero, suc, get_elem?, ℕ, ◌+◌, ◌≤◌, ◌<◌, ◌≡◌, refl, true, false, panicked, none, some, List, [],
  ◌∷◌, ◌++◌, length, get_or, get, contains_key, nat_key, string_key, string_dec, ℕ_discrete, ◌^◌,
  values, arith, done,
}
use decentralized_llm_infere.Models.Sessions.{
  Call, Reply, start, forward, finish, started, finished, answered, replies, specified, forward_at,
  replay,
}
use decentralized_llm_infere.Models.Llama.Layers as Layers
use decentralized_llm_infere.Models.Llama.Layers.{Block, replies-serve}
use decentralized_llm_infere.SharedMap as SharedMap
use decentralized_llm_infere.OpenaiHttp.Reader as Reader
use decentralized_llm_infere.OpenaiHttp.Reader.{Event, sent, polled, run, poll_read}
use decentralized_llm_infere.OpenaiHttp.Reader.Delivery.{held, Answers, run-new, run-poll_read}
use decentralized_llm_infere.Protocol.Registry.{no_stats}
use decentralized_llm_infere.Registry.Sessions.{
  NodeInfo, SessionManager, max_layer, get_distribution,
}
use decentralized_llm_infere.Registry.Sessions.Distribution.{servers}
use decentralized_llm_infere.Registry.Selection.{LayerSelectionRes, enough_layers, select_layers}
use decentralized_llm_infere.Registry.Selection.Gaps.{Missing, Chosen}
use decentralized_llm_infere.Registry.Selection.Windows.{load, sum}
use decentralized_llm_infere.Registry.Selection.Uncovered.{select_layers-misses}
use decentralized_llm_infere.Router.{Range}
use decentralized_llm_infere.Control.Suggestion as Suggestion
use decentralized_llm_infere.Control.Suggestion.{
  P2pSuggestLayers, P2pSuggestLayersRes, distribution, p2p_suggest_layers,
}
use decentralized_llm_infere.Control.Suggestion.Served.{Suggests, p2p_suggest_layers-Chosen}
use decentralized_llm_infere.OpenaiHttp.Store.{has_sender}
use decentralized_llm_infere.Control.Workers.{
  loading, running, leaving, over, Worker, ModelState, P2pState, P2pStart, ok, model_of, p2p_start,
  p2p_stop, task_step, loaded, chats_closed, left,
}
use decentralized_llm_infere.Control.Workers.Restart.{fresh, stop-start}

-- A block whose cache counts its calls, and whose output is the count.
abbrev counting : Block ℕ ℕ
counting = record {
  rms_1 = some;
  attn = λ x pos i c. (some (c + 1), c + 1);
  rms_2 = some;
  mlp = λ x. some 0;
}

abbrev calls : List (Call ((ℕ × ℕ) × ℕ))
calls =
    start 1
    ∷ start 2
    ∷ forward 1 ((0, 1), 0)
    ∷ forward 2 ((0, 1), 0)
    ∷ finish 2
    ∷ forward 1 ((0, 1), 1)
    ∷ []

abbrev answers : List (Reply (ℕ × ℕ))
answers =
    started
    ∷ started
    ∷ answered (some (1, 1))
    ∷ answered (some (1, 1))
    ∷ finished
    ∷ answered (some (2, 1))
    ∷ []

calls-answers :
    replies
      (specified 0 (Layers.pass (λ a b. some (a + b)) (counting ∷ []) (some 0)))
      calls
      (λ _. none)
    ≡ done answers
unfolding replies specified forward_at replay Layers.pass Layers.layers_forward Layers.block_forward
    Layers.feed_forward
calls-answers = refl

replies-serve_example :
    replies (Layers.serve (λ a b. some (a + b)) (counting ∷ []) (some 0)) calls SharedMap.new
    ≡ done answers
replies-serve_example =
    replies-serve (λ a b. some (a + b)) (counting ∷ []) (some 0) 0 calls answers refl calls-answers

abbrev events : List Event
events = sent (1 ∷ 2 ∷ 3 ∷ []) ∷ polled 2 ∷ sent (4 ∷ []) ∷ polled 2 ∷ []

run-new_example : 1 ∷ 2 ∷ 3 ∷ 4 ∷ [] ≡ (run events Reader.new).0 ++ held (run events Reader.new).1
run-new_example = run-new events (omega arith, (omega arith, tt))

run-poll_read_example :
    Answers 2
      (held (run events Reader.new).1)
      (run events Reader.new).1.closed
      (poll_read 2 (run events Reader.new).1).0
      (poll_read 2 (run events Reader.new).1).1
run-poll_read_example = run-poll_read events 2 (omega arith, (omega arith, tt)) (omega arith)

abbrev serving : NodeInfo ℕ
serving = record { layers = some (record { start = 1; end = 3 }); stats = no_stats 0 }

abbrev swarm : SessionManager ℕ
swarm = record { nodes = ("b", serving) ∷ []; events = [] }

abbrev query : P2pSuggestLayers
query = record { model = "phi3"; layers = 3; max_layers = 5 }

swarm_ends : max_layer 0 (values swarm.nodes) ≤ 5
unfolding max_layer
swarm_ends = omega arith

p2p_suggest_layers-Chosen_example :
    (counts d : List ℕ) × (res : LayerSelectionRes) × (a : P2pSuggestLayersRes) × (get_distribution
        swarm
      ≡ done counts)
    × (p2p_suggest_layers query (distribution counts) ≡ done (Suggestion.ok a))
    × Suggests d res a
    × (length d ≡ 5)
    × ((l : ℕ) → get_or d l 0 ≡ servers (values swarm.nodes) l)
    × Chosen d 3 res
p2p_suggest_layers-Chosen_example =
    p2p_suggest_layers-Chosen swarm query (omega arith) swarm_ends (omega arith) (omega arith)

abbrev counts : List ℕ
counts = 9 ∷ 0 ∷ 9 ∷ 1 ∷ 1 ∷ []

counts_between : (k : ℕ) → get_elem? counts k ≡ some 0 → (1 ≤ k) × (k ≤ 1)
counts_between zero h = absurd (ground arith)
counts_between (suc zero) h = (omega arith, omega arith)
counts_between (suc (suc zero)) h = absurd (ground arith)
counts_between (suc (suc (suc zero))) h = absurd (ground arith)
counts_between (suc (suc (suc (suc zero)))) h = absurd (ground arith)
counts_between (suc (suc (suc (suc (suc k))))) h = absurd (ground arith)

counts-Missing : Missing counts 1 1
counts-Missing = record {
  ordered = omega arith;
  first_missing = refl;
  last_missing = refl;
  between = counts_between;
}

counts_dear : (j : ℕ) → j ≤ 1 → 1 < j + 2 → load counts 3 2 < load counts j 2
unfolding load sum
counts_dear zero low high = omega arith
counts_dear (suc zero) low high = omega arith
counts_dear (suc (suc j)) low high = absurd (omega arith)

counts_small : sum counts < 2 ^ 64
unfolding sum
counts_small = omega arith

select_layers-misses_example :
    (range : Range) × (select_layers counts 2 ≡ done (enough_layers range))
    × ¬ ((range.start ≤ 1) × (1 < range.end))
select_layers-misses_example =
    select_layers-misses counts 2 1 1 3 counts-Missing (omega arith) (omega arith) (omega arith)
      counts_dear (omega arith) counts_small

abbrev worker : Worker
worker = record (fresh "fake" running) {
  status = record { ready = true; peers = []; sessions = 0 };
}

abbrev state : ModelState
state = record { model = "fake"; from_layer = 0; to_layer = 4; worker = 0 }

abbrev control : P2pState
control = record { store = []; models = ("fake", state) ∷ []; workers = (0, worker) ∷ []; seed = 1 }

abbrev body : P2pStart
body = record { model = "fake"; from_layer = 0; to_layer = 8; private_key = "0x01" }

control-models : get "fake" control.models ≡ some state
unfolding get string_dec
control-models = refl

control-workers : get 0 control.workers ≡ some worker
unfolding get ℕ_discrete
control-workers = refl

fake-model :
    model_of "fake"
    ≡ some (record { id = "fake"; object = "model"; created = 0; owned_by = "fake" })
unfolding model_of string_dec
fake-model = refl

stop-start_example :
    (s1 s2 : P2pState) × (p2p_stop "fake" control ≡ done (some (ok, s1)))
    × (p2p_start (λ k. true) body s1 ≡ done (ok, s2))
    × (let removed : P2pState =
          task_step left 0
            (record worker { phase = leaving })
            (task_step loaded 1 (fresh "fake" loading) s2) in
        let ended : P2pState =
          task_step left 1
            (fresh "fake" leaving)
            (task_step chats_closed 1 (fresh "fake" running) removed) in
        (get 1 removed.workers ≡ some (fresh "fake" running))
        × (get "fake" removed.store ≡ none)
        × (has_sender 1 removed.store ≡ false)
        × (get 1 ended.workers ≡ some (fresh "fake" over))
        × (contains_key "fake" ended.models ≡ true)
        × (p2p_stop "fake" ended ≡ panicked))
    × (get "fake"
          (task_step loaded 1
            (fresh "fake" loading)
            (task_step left 0 (record worker { phase = leaving }) s2)).store
        ≡ some (record {
          model = record { id = "fake"; object = "model"; created = 0; owned_by = "fake" };
          tx = 1;
        }))
unfolding has_sender
stop-start_example =
    stop-start (λ k. true) body control state worker
      (record { id = "fake"; object = "model"; created = 0; owned_by = "fake" }) refl control-models
      control-workers refl refl fake-model (λ e. absurd (omega arith)) refl
