-- ===== src/Tests/Layers.antt =====
-- Two layers of a small Phi-3 model: the theorem on its worker at concrete calls.
use decentralized_llm_infere.Base.{ℕ, ◌+◌, ◌≡◌, refl, Option, none, some, List, [], ◌∷◌, done}
use decentralized_llm_infere.Models.Sessions.{
  Call, Reply, start, forward, finish, started, finished, answered, replies, specified, forward_at,
  replay,
}
use decentralized_llm_infere.Models.LayersCache as LayersCache
use decentralized_llm_infere.Models.Phi3.Layers as Layers
use decentralized_llm_infere.Models.Phi3.Layers.{LayerWeights}
use decentralized_llm_infere.Models.Phi3.Layers.Columns.{run_layers}
use decentralized_llm_infere.Models.Phi3.Layers.Refinement.{
  pass_masked, pass, fresh, replies-serve_columns,
}

-- A layer whose cache counts its calls, and whose attention adds the count.
abbrev counting : LayerWeights ℕ ℕ
counting = record {
  attn_norm = some;
  forward_attn = λ x mask pos c. (some (c + 1), c + 1);
  ffn_norm = some;
  mlp = λ x. some 0;
}

abbrev add : ℕ → ℕ → Option ℕ
add a b = some (a + b)

abbrev two_layers : List (LayerWeights ℕ ℕ)
two_layers = counting ∷ counting ∷ []

abbrev calls : List (Call ((ℕ × ℕ) × ℕ))
calls =
    start 1
    ∷ start 2
    ∷ forward 1 ((0, 2), 0)
    ∷ forward 2 ((0, 1), 0)
    ∷ finish 2
    ∷ forward 1 ((0, 1), 2)
    ∷ []

abbrev answers : List (Reply (ℕ × ℕ))
answers =
    started
    ∷ started
    ∷ answered (some (2, 2))
    ∷ answered (some (2, 1))
    ∷ finished
    ∷ answered (some (4, 1))
    ∷ []

calls-answers :
    replies
      (specified
        (fresh {T = ℕ} add (λ xs n. some 0) (λ d n. 0) 8 16 two_layers)
        (pass add (λ xs n. some 0) (λ d n. 0) 8 16 two_layers))
      calls
      (λ _. none)
    ≡ done answers
unfolding replies specified forward_at replay pass pass_masked run_layers Layers.layer_forward
    Layers.feed_forward Layers.mask_for Layers.mask Layers.mask_rows Layers.mask_row
calls-answers = refl

replies-serve_columns_example :
    replies (Layers.serve add (λ xs n. some 0) (λ d n. 0) two_layers) calls (LayersCache.new 2 8 16)
    ≡ done answers
replies-serve_columns_example =
    replies-serve_columns add (λ xs n. some 0) (λ d n. 0) 8 16 two_layers calls answers
      calls-answers
