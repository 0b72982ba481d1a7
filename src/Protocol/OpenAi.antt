-- ===== src/Protocol/OpenAi.antt =====
-- crates/protocol/src/openai.rs: requests for a chat and the description of a model. A text that the
-- code compares is a `String`, any other one its characters.
use decentralized_llm_infere.Base.{ℕ, Bool, Option, List, [], ◌∷◌, map, String}

pub record MessageContent : Type 0 where
  pub type_ : String
  pub text : List ℕ

pub data StringOrVecContent : Type 0 where
  string : List ℕ → StringOrVecContent
  vec : List MessageContent → StringOrVecContent

unfoldable pub contents : StringOrVecContent → List (List ℕ)
contents (string c) = c ∷ []
contents (vec cs) = map (λ c. c.text) cs

pub record Message : Type 0 where
  pub role : String
  pub content : StringOrVecContent

-- With `F` for `f32`. `max_tokens` is an `i32`, by its bits: from 2^31 on it is negative.
pub record ChatCompletionRequest (F : Type 0) : Type 0 where
  pub model : String
  pub messages : List Message
  pub temperature : Option F
  pub max_tokens : Option ℕ
  pub stream : Option Bool
  pub plain_text : Option Bool

pub record Model : Type 0 where
  pub id : String
  pub object : String
  pub created : ℕ
  pub owned_by : String

pub record ModelList : Type 0 where
  pub object : String
  pub models : List Model
