-- ===== src/Registry/Selection/Gaps.antt =====
-- The check for missing layers in select_layers of
-- crates/registry/src/client/layers_selection.rs, and what the whole function answers.
use decentralized_llm_infere.Base.{
  ℕ, suc, ◌+◌, ◌-◌, ◌≤◌, ◌<◌, ◌^◌, ◌≡◌, ◌≢◌, refl, sym, ◌∙◌, ap, Bool, Option, none, some, List,
  length, get_elem?, arith, done, u32, ◌==◌, ltb, ltb→lt, leb, inl, inr, ◌⊎◌, Option-cases,
  Bool-cases, get_elem?_inside, get_elem?-reverse, length-reverse,
}
use mathlib.Core.List.{reverse}
use decentralized_llm_infere.Registry.Selection.{
  LayerSelectionRes, position, min_layers, span_of_missing, select_window, select_layers,
  enough_layers, not_enough_layers,
}
use decentralized_llm_infere.Registry.Selection.Windows.{sum}
use decentralized_llm_infere.Registry.Selection.Choice.{
  position_holds, position_first, position_absent, IsBestWindow, select_window-IsBestWindow,
}

-- Layers that nobody serves, all of them from `first` to `last`.
pub record Missing (xs : List ℕ) (first last : ℕ) : Type 0 where
  pub ordered : first ≤ last
  pub first_missing : get_elem? xs first ≡ some 0
  pub last_missing : get_elem? xs last ≡ some 0
  pub between : (k : ℕ) → get_elem? xs k ≡ some 0 → (first ≤ k) × (k ≤ last)

abbrev is_zero : ℕ → Bool
is_zero c = c == 0

position_zero : (xs : List ℕ) (i : ℕ) → position is_zero xs ≡ some i → get_elem? xs i ≡ some 0
position_zero xs i h =
    let (x, at, holds) = position_holds is_zero xs i h in
    let zero_here : x ≡ 0 = ground arith in rw at (ap some zero_here)

position_zero-le :
    (xs : List ℕ) (i k : ℕ) → position is_zero xs ≡ some i → get_elem? xs k ≡ some 0 → i ≤ k
position_zero-le xs i k h at = elim (Bool-cases (ltb k i)) [
  | inl below ↦
      let no_zero = position_first is_zero xs i k h (ltb→lt k i below) at in absurd (ground arith)
  | inr above ↦ ground arith
]

between_ends :
    (xs : List ℕ) (start end last : ℕ)
    → position is_zero xs ≡ some start
    → position is_zero (reverse xs) ≡ some end
    → end + suc last ≡ length xs
    → Missing xs start last
between_ends xs start end last p q at = record {
  ordered = position_zero-le xs start last p zero_last;
  first_missing = position_zero xs start p;
  last_missing = zero_last;
  between = λ k h. (position_zero-le xs start k p h, below_last k h);
}
  where
    zero_last : get_elem? xs last ≡ some 0
    zero_last = sym (get_elem?-reverse xs end last at) ∙ position_zero (reverse xs) end q

    below_last : (k : ℕ) → get_elem? xs k ≡ some 0 → k ≤ last
    below_last k h =
        let inside = get_elem?_inside xs k h in
        let mirrored = get_elem?-reverse xs (length xs - suc k) k (omega arith) in
        let le = position_zero-le (reverse xs) end (length xs - suc k) q (mirrored ∙ h) in
        omega arith

-- `min_layers` is the length of the shortest range with all the missing layers in it; it is
-- absent when no layer is missing.
abbrev MinLayers : List ℕ → Option ℕ → Type 0
MinLayers xs none = (k : ℕ) → get_elem? xs k ≢ some 0
MinLayers xs (some needed) = (first last : ℕ) × Missing xs first last × (needed ≡ last - first + 1)

mirrored_zero :
    (xs : List ℕ) (k : ℕ) → get_elem? xs k ≡ some 0 → position is_zero (reverse xs) ≢ none
mirrored_zero xs k h e =
    let inside = get_elem?_inside xs k h in
    let mirrored = get_elem?-reverse xs (length xs - suc k) k (omega arith) in
    let no_zero = position_absent is_zero (reverse xs) (length xs - suc k) e (mirrored ∙ h) in
    ground arith

span_lem :
    (xs : List ℕ) (start end : ℕ)
    → length xs < 2 ^ 32
    → position is_zero xs ≡ some start
    → position is_zero (reverse xs) ≡ some end
    → MinLayers xs (span_of_missing xs (some start) (some end))
unfolding span_of_missing
span_lem xs start end short p q =
    let inside = get_elem?_inside (reverse xs) end (position_zero (reverse xs) end q) in
    let same = length-reverse xs in
    let missing = between_ends xs start end (length xs - end - 1) p q (omega arith) in
    (start, length xs - end - 1, missing, omega arith)

min_layers-MinLayers : (xs : List ℕ) → length xs < 2 ^ 32 → MinLayers xs (min_layers xs)
unfolding min_layers
min_layers-MinLayers xs short = elim (Option-cases (position is_zero xs)) [
  | inl e ↦
      rw (e, span_of_missing)
        (λ k h. let no_zero = position_absent is_zero xs k e h in ground arith)
  | inr (start, e) ↦ elim (Option-cases (position is_zero (reverse xs))) [
    | inl e' ↦ absurd (mirrored_zero xs start (position_zero xs start e) e')
    | inr (end, e') ↦ rw (e, e') (span_lem xs start end short e e')
  ]
]

-- What an answer says of the distribution that it was asked about.
abbrev pub Chosen : List ℕ → ℕ → LayerSelectionRes → Type 0
Chosen xs layers (not_enough_layers needed) =
    (layers < needed) × ((first last : ℕ) × Missing xs first last × (needed ≡ last - first + 1))
Chosen xs layers (enough_layers range) =
    ((first last : ℕ) → Missing xs first last → last - first + 1 ≤ layers)
    × (((length xs ≤ layers) × (range.start ≡ 0) × (range.end ≡ length xs))
        ⊎ ((layers < length xs)
            × (range.end ≡ range.start + layers)
            × IsBestWindow xs layers range.start))

window-Chosen :
    (xs : List ℕ) (layers : ℕ)
    → 0 < layers
    → length xs < 2 ^ 32
    → sum xs < 2 ^ 64
    → ((first last : ℕ) → Missing xs first last → last - first + 1 ≤ layers)
    → (res : LayerSelectionRes) × (select_window xs layers ≡ done res) × Chosen xs layers res
unfolding select_window
window-Chosen xs layers pos short small fits = elim (Bool-cases (leb (length xs) layers)) [
  | inl all ↦ (
    enough_layers (record { start = 0; end = u32 (length xs) }),
    ground arith,
    (fits, inl (ground arith, refl, omega arith)),
  )
  | inr more ↦
      let (index, e, best) = select_window-IsBestWindow xs layers pos (ground arith) short small in
      (
        enough_layers (record { start = index; end = index + layers }),
        unfold select_window in e,
        (fits, inr (ground arith, refl, best)),
      )
]

pub Missing-unique :
    (xs : List ℕ) (first last first' last' : ℕ)
    → Missing xs first last
    → Missing xs first' last'
    → (first' ≡ first) × (last' ≡ last)
Missing-unique xs first last first' last' m m' =
    let low = m.between first' m'.first_missing in
    let high = m.between last' m'.last_missing in
    let low' = m'.between first m.first_missing in
    let high' = m'.between last m.last_missing in (omega arith, omega arith)

answer-Chosen :
    (xs : List ℕ) (layers : ℕ)
    → 0 < layers
    → length xs < 2 ^ 32
    → sum xs < 2 ^ 64
    → (o : Option ℕ) → min_layers xs ≡ o
    → MinLayers xs o
    → (res : LayerSelectionRes) × (select_layers xs layers ≡ done res) × Chosen xs layers res
unfolding select_layers
answer-Chosen xs layers pos short small none e m =
    rw (e, select_layers)
      (window-Chosen xs layers pos short small
        (λ first last missing. absurd (m first missing.first_missing)))
answer-Chosen xs layers pos short small (some needed) e (first, last, missing, same) =
    elim (Bool-cases (ltb layers needed)) [
      | inl few ↦
          (not_enough_layers needed, ground arith, (ground arith, (first, last, missing, same)))
      | inr enough ↦
          rw (e, select_layers, enough)
            (window-Chosen xs layers pos short small (λ first' last' missing'.
              let (f, l) = Missing-unique xs first last first' last' missing missing' in
              ground arith))
    ]

-- Asked for at least one layer, `select_layers` does not panic. It refuses exactly when the range
-- from the first to the last layer that nobody serves is longer than the number asked for, and
-- then names the length of that range. Otherwise it gives the whole model if that is no longer
-- than the number asked for, and else the first of the windows of that size whose layers are
-- served by the fewest nodes. (The model has fewer than 2^32 layers and the counts add up to less
-- than 2^64.)
pub select_layers-Chosen :
    (xs : List ℕ) (layers : ℕ)
    → 0 < layers
    → length xs < 2 ^ 32
    → sum xs < 2 ^ 64
    → (res : LayerSelectionRes) × (select_layers xs layers ≡ done res) × Chosen xs layers res
select_layers-Chosen xs layers pos short small =
    answer-Chosen xs layers pos short small (min_layers xs) refl (min_layers-MinLayers xs short)
