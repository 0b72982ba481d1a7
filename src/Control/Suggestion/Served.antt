-- ===== src/Control/Suggestion/Served.antt =====
-- A suggestion out of the sessions of a registry.
use decentralized_llm_infere.Base.{
  ℕ, zero, suc, ◌+◌, ◌*◌, ◌^◌, ◌≤◌, ◌<◌, ◌≡◌, none, some, refl, sym, subst, ◌∙◌, Bool-cases, inl,
  inr, List, [], ◌∷◌, ◌++◌, length, length-append, get_or, max, ltb, values, arith, done,
}
use decentralized_llm_infere.Registry.Selection.{
  LayerSelectionRes, enough_layers, not_enough_layers,
}
use decentralized_llm_infere.Registry.Selection.Gaps.{Chosen, select_layers-Chosen}
use decentralized_llm_infere.Registry.Selection.Windows.{sum}
use decentralized_llm_infere.Registry.Sessions.{SessionManager, max_layer, get_distribution}
use decentralized_llm_infere.Registry.Sessions.Distribution.{
  servers, servers-le-length, get_distribution_lem,
}
use decentralized_llm_infere.Control.Suggestion.{
  P2pSuggestLayers, P2pSuggestLayersRes, ok, distribution, fill, respond, p2p_suggest_layers,
}

get_or-append_zero : (xs : List ℕ) (l : ℕ) → get_or (xs ++ 0 ∷ []) l 0 ≡ get_or xs l 0
get_or-append_zero [] zero = refl
get_or-append_zero [] (suc l) = refl
get_or-append_zero (x ∷ xs) zero = refl
get_or-append_zero (x ∷ xs) (suc l) = get_or-append_zero xs l

-- The distribution is filled up to the model's layers, and says the same of every layer.
fill_lem :
    (rounds max_layers : ℕ) (layers : List ℕ)
    → max_layers ≤ length layers + rounds
    → (length (fill rounds max_layers layers) ≡ max max_layers (length layers))
      × ((l : ℕ) → get_or (fill rounds max_layers layers) l 0 ≡ get_or layers l 0)
unfolding fill
fill_lem zero max_layers layers h = (ground arith, λ l. refl)
fill_lem (suc rounds) max_layers layers h = elim (Bool-cases (ltb (length layers) max_layers)) [
  | inl short ↦
      let long = length-append layers (0 ∷ []) in
      let (len, at) = fill_lem rounds max_layers (layers ++ 0 ∷ []) (omega (arith, long)) in
      rw short (ground (arith, len, long, short), λ l. at l ∙ get_or-append_zero layers l)
  | inr enough ↦ rw enough (ground (arith, enough), λ l. refl)
]

sum-le-mul : (k : ℕ) (xs : List ℕ) → ((l : ℕ) → get_or xs l 0 ≤ k) → sum xs ≤ length xs * k
unfolding sum
sum-le-mul k [] h = omega arith
sum-le-mul k (x ∷ xs) h =
    let rest = sum-le-mul k xs (λ l. h (suc l)) in let first = h 0 in grind arith

mul-lt : (a b m : ℕ) → a < m → b < m → a * b < m * m
mul-lt a b m h k = grind arith

-- What an answer says of a distribution and a choice.
abbrev pub Suggests : List ℕ → LayerSelectionRes → P2pSuggestLayersRes → Type 0
Suggests d (enough_layers range) a =
    (a.distribution ≡ d)
    × (a.min_layers ≡ none)
    × (a.from_layer ≡ some range.start)
    × (a.to_layer ≡ some range.end)
Suggests d (not_enough_layers needed) a =
    (a.distribution ≡ d)
    × (a.min_layers ≡ some needed)
    × (a.from_layer ≡ none)
    × (a.to_layer ≡ none)

respond-Suggests : (d : List ℕ) (res : LayerSelectionRes) → Suggests d res (respond d res)
unfolding respond
respond-Suggests d (enough_layers range) = (refl, refl, refl, refl)
respond-Suggests d (not_enough_layers needed) = (refl, refl, refl, refl)

module _ {F : Type 0} where
  -- For a registry with fewer than 2^32 nodes, whose announced ranges end within the layers of the
  -- model, and a request for at least one layer of a model with fewer than 2^32 layers,
  -- `p2p_suggest_layers` answers out of the registry's distribution without a panic. The distribution
  -- in the answer has one count for each layer of the model, the number of nodes whose range contains
  -- it. The answer refuses exactly if the range from the first to the last unserved layer is longer
  -- than the number asked for, and then has its length and no range; otherwise it has no such length,
  -- and its range, from its first layer to the one behind its last, is the whole model, if that is no
  -- longer than asked for, or the first of the windows of that size that the fewest nodes serve.
  pub p2p_suggest_layers-Chosen :
      (s : SessionManager F) (query : P2pSuggestLayers)
      → length (values s.nodes) < 2 ^ 32
      → max_layer 0 (values s.nodes) ≤ query.max_layers
      → query.max_layers < 2 ^ 32
      → 0 < query.layers
      → (counts d : List ℕ) × (res : LayerSelectionRes) × (a : P2pSuggestLayersRes)
        × (get_distribution s ≡ done counts)
        × (p2p_suggest_layers query (distribution counts) ≡ done (ok a))
        × Suggests d res a
        × (length d ≡ query.max_layers)
        × ((l : ℕ) → get_or d l 0 ≡ servers (values s.nodes) l)
        × Chosen d query.layers res
  unfolding p2p_suggest_layers
  p2p_suggest_layers-Chosen s query few within short some' =
      let (counts, e, len, at) = get_distribution_lem s in
      let d = fill query.max_layers query.max_layers counts in
      let (len', at') = fill_lem query.max_layers query.max_layers counts (omega arith) in
      let sized : length d ≡ query.max_layers = ground (arith, len', len, within) in
      let served : (l : ℕ) → get_or d l 0 ≡ servers (values s.nodes) l = λ l. at' l ∙ at l in
      let small : sum d < 2 ^ 64 = omega (
        arith,
        sum-le-mul (length (values s.nodes)) d (λ l.
            subst (λ k. k ≤ length (values s.nodes)) (sym (served l))
              (servers-le-length (values s.nodes) l)),
        mul-lt (length d) (length (values s.nodes)) (2 ^ 32) (omega arith) few,
      ) in
      let (res, e', chosen) = select_layers-Chosen d query.layers some' (omega arith) small in
      (counts, d, res, respond d res, e, rw e', respond-Suggests d res, sized, served, chosen)
