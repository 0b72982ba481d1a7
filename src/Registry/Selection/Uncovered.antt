-- ===== src/Registry/Selection/Uncovered.antt =====
-- A range that `select_layers` chooses need not hold the layers that nobody serves.
use decentralized_llm_infere.Base.{
  ℕ, ◌+◌, ◌-◌, ◌^◌, ◌≤◌, ◌<◌, ◌≡◌, refl, ◌∙◌, inl, inr, ap, List, length, arith, done,
}
use decentralized_llm_infere.Router.{Range}
use decentralized_llm_infere.Registry.Selection.{
  LayerSelectionRes, enough_layers, not_enough_layers, select_layers,
}
use decentralized_llm_infere.Registry.Selection.Windows.{sum, load}
use decentralized_llm_infere.Registry.Selection.Gaps.{
  Missing, Missing-unique, Chosen, select_layers-Chosen,
}

-- What an answer says where a cheap window is far from the first missing layer.
misses :
    (xs : List ℕ) (layers first last i : ℕ)
    → Missing xs first last
    → last - first + 1 ≤ layers
    → layers < length xs
    → i + layers ≤ length xs
    → ((j : ℕ) → j ≤ first → first < j + layers → load xs i layers < load xs j layers)
    → (res : LayerSelectionRes) → Chosen xs layers res
    → (range : Range) × (res ≡ enough_layers range)
      × ¬ ((range.start ≤ first) × (first < range.end))
misses xs layers first last i gap fits more inside dear (not_enough_layers needed)
      (few, (f, l, gap', e)) =
    let (same_first, same_last) = Missing-unique xs first last f l gap gap' in
    absurd (omega (arith, same_first, same_last))
misses xs layers first last i gap fits more inside dear (enough_layers range)
      (unused, inl (all, begins, ends)) =
    absurd (omega arith)
misses xs layers first last i gap fits more inside dear (enough_layers range)
      (_, inr (_, end, best)) =
    (
      range,
      refl,
      λ c.
          let cheapest = best.least i inside in
          let dearer = dear range.start c.0 (omega (arith, c.1, end)) in omega arith,
    )

-- Let the layers that nobody serves reach from `first` to `last`, no further than the number of
-- layers asked for, which is below the model's. If some window of that size is served by fewer nodes
-- than every window that holds `first`, then `select_layers` gives a range that does not hold
-- `first`, although a worker of that many layers can serve every layer that is missing.
pub select_layers-misses :
    (xs : List ℕ) (layers first last i : ℕ)
    → Missing xs first last
    → last - first + 1 ≤ layers
    → layers < length xs
    → i + layers ≤ length xs
    → ((j : ℕ) → j ≤ first → first < j + layers → load xs i layers < load xs j layers)
    → length xs < 2 ^ 32
    → sum xs < 2 ^ 64
    → (range : Range) × (select_layers xs layers ≡ done (enough_layers range))
      × ¬ ((range.start ≤ first) × (first < range.end))
select_layers-misses xs layers first last i gap fits more inside dear short small =
    let (res, e, chosen) = select_layers-Chosen xs layers (omega arith) short small in
    let (range, same, out) = misses xs layers first last i gap fits more inside dear res chosen in
    (range, e ∙ ap done same, out)
