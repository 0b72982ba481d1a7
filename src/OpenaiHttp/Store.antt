-- ===== src/OpenaiHttp/Store.antt =====
-- ModelStore of crates/openai-http/src/lib.rs: the models that chats can be asked of, each with the
-- channel to its worker. A channel is a number.
use decentralized_llm_infere.Base.{
  ℕ, Bool, true, false, [], ◌∷◌, ◌==◌, if◌then◌else◌, Option, none, some, List, map, String,
  string_key, HashMap, get, insert, remove, values,
}
use mathlib.Core.Option
use decentralized_llm_infere.Protocol.OpenAi.{Model}

pub record ModelStoreElement : Type 0 where
  pub model : Model
  pub tx : ℕ

abbrev pub ModelStore : Type 0
ModelStore = HashMap String ModelStoreElement

-- `add_model`, with the channel that it makes.
unfoldable pub add_model : ℕ → Model → ModelStore → ModelStore
add_model tx model store = insert model.id (record { model = model; tx = tx }) store

unfoldable pub remove_model : String → ModelStore → ModelStore
remove_model model_id store = remove model_id store

-- Whether a channel has a sender: the store holds the only one, so a channel is closed where its entry
-- is removed or replaced.
unfoldable pub has_sender : ℕ → ModelStore → Bool
has_sender tx [] = false
has_sender tx ((id, e) ∷ store) = if e.tx == tx then true else has_sender tx store

unfoldable pub models : ModelStore → List Model
models store = map (λ e. e.model) (values store)

unfoldable pub model : String → ModelStore → Option Model
model model_id store = Option.map (λ e. e.model) (get model_id store)

-- `send_model`: the request goes over the channel of its model, if there is one that takes it.
unfoldable pub send_model :
    {Req Q : Type 0} → (ℕ → Req → Q → Bool × Q) → String → Req → ModelStore → Q → Bool × Q
send_model {Req} {Q} send req_model req store q = sent (get req_model store)
  where
    sent : Option ModelStoreElement → Bool × Q
    sent none = (false, q)
    sent (some e) = send e.tx req q
