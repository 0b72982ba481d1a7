-- ===== src/Tests/Completions.antt =====
-- A chat of two texts over the web interface: the theorem on chat_completions at concrete inputs.
use decentralized_llm_infere.Base.{
  ◌≡◌, ◌≢◌, refl, Bool, true, false, Option, none, some, map, List, [], ◌∷◌, ◌++◌, arith,
}
use mathlib.Core.List.{flatten}
use decentralized_llm_infere.Models.{Text}
use decentralized_llm_infere.OpenaiHttp.Reader as Reader
use decentralized_llm_infere.OpenaiHttp.Completions.{
  Event, answered, chat_ends, relays, polled, new, response, relay, run,
}
use decentralized_llm_infere.OpenaiHttp.Completions.Relay.{IsOrderly, run-end_of_body}

-- A chunk is the text between brackets.
abbrev json : Text → Text
json t = 91 ∷ t ++ 93 ∷ []

abbrev events : List Event
events =
    answered (104 ∷ 105 ∷ [])
    ∷ relays
    ∷ polled 3
    ∷ answered (33 ∷ [])
    ∷ chat_ends
    ∷ relays
    ∷ polled 8
    ∷ polled 8
    ∷ relays
    ∷ []

events-IsOrderly : IsOrderly false events
events-IsOrderly = (refl, (omega arith, (refl, (omega arith, (omega arith, tt)))))

run-end_of_body_example :
    (◌≡◌ {A = Option Bool} none (some true)
      → (run json (λ t. t) none events new).0
        ≡ flatten (map (λ t. t) ((104 ∷ 105 ∷ []) ∷ (33 ∷ []) ∷ [])))
    × (◌≢◌ {A = Option Bool} none (some true)
        → (run json (λ t. t) none events new).0
          ≡ flatten (map json ((104 ∷ 105 ∷ []) ∷ (33 ∷ []) ∷ [])))
    × ((run json (λ t. t) none events new).1.ended ≡ true)
unfolding run new relay response Reader.new Reader.poll_read Reader.poll_loop Reader.read_buffer
run-end_of_body_example =
    run-end_of_body json (λ t. t) none events 8 events-IsOrderly (omega arith) refl
