-- ===== src/Control/Suggestion.antt =====
-- p2p_suggest_layers of bin/openai-server/src/api_control.rs: which layers a worker is to serve, out
-- of the registry's distribution.
pub mod Served
use decentralized_llm_infere.Base.{
  ℕ, zero, suc, ◌+◌, Option, none, some, List, [], ◌∷◌, ◌++◌, String, length, ltb, if◌then◌else◌,
  Outcome, done, ◌>>=◌,
}
use decentralized_llm_infere.Registry.Selection.{
  LayerSelectionRes, enough_layers, not_enough_layers, select_layers,
}

pub record P2pSuggestLayers : Type 0 where
  pub model : String
  pub layers : ℕ
  pub max_layers : ℕ

pub record P2pSuggestLayersRes : Type 0 where
  pub distribution : List ℕ
  pub min_layers : Option ℕ
  pub from_layer : Option ℕ
  pub to_layer : Option ℕ

-- A response with its status and its body.
pub data Response : Type 0 where
  ok : P2pSuggestLayersRes → Response
  internal_server_error : String → Response

-- What `get_layers_distribution` gives.
pub data Answered : Type 0 where
  distribution : List ℕ → Answered
  failed : (err : String) → Answered

-- The `while` loop that fills the distribution up, a round for each layer that may be missing.
unfoldable pub fill : ℕ → ℕ → List ℕ → List ℕ
fill zero max_layers layers = layers
fill (suc rounds) max_layers layers =
    if ltb (length layers) max_layers then fill rounds max_layers (layers ++ 0 ∷ []) else layers

unfoldable pub respond : List ℕ → LayerSelectionRes → P2pSuggestLayersRes
respond layers (enough_layers ranges) = record {
  distribution = layers;
  min_layers = none;
  from_layer = some ranges.start;
  to_layer = some ranges.end;
}
respond layers (not_enough_layers min_layers) = record {
  distribution = layers;
  min_layers = some min_layers;
  from_layer = none;
  to_layer = none;
}

unfoldable pub p2p_suggest_layers : P2pSuggestLayers → Answered → Outcome Response
p2p_suggest_layers query (failed err) = done (internal_server_error err)
p2p_suggest_layers query (distribution layers) =
    let layers = fill query.max_layers query.max_layers layers in
    select_layers layers query.layers >>= λ res. done (ok (respond layers res))
