-- ===== src/Registry/Selection/Choice.antt =====
-- The choice of a window in select_layers of crates/registry/src/client/layers_selection.rs.
use decentralized_llm_infere.Base.{
  ℕ, zero, suc, ◌+◌, ◌≤◌, ◌<◌, ◌^◌, ◌≡◌, refl, Bool, true, false, none, some, List, [], ◌∷◌, length,
  get_elem?, arith, done, ◌==◌, ap, sym, ◌∙◌, ◌⊎◌, inl, inr, Option-cases, Bool-cases,
  get_elem?_inside,
}
use mathlib.Core.Option.{some-injective}
use decentralized_llm_infere.Registry.Selection.{
  position, minimum, minimum_from, smaller, select_window, enough_layers,
}
use decentralized_llm_infere.Registry.Selection.Windows.{sum, load, sum_in_window_lem}

pub position_holds :
    (p : ℕ → Bool) (xs : List ℕ) (i : ℕ)
    → position p xs ≡ some i
    → (x : ℕ) × (get_elem? xs i ≡ some x) × (p x ≡ true)
unfolding position
position_holds p [] i h = cc
position_holds p (x ∷ xs) i h = elim (Bool-cases (p x)) [
  | inl e ↦ (x, ground arith, e)
  | inr e ↦ elim (Option-cases (position p xs)) [
    | inl q ↦ absurd (ground arith)
    | inr (j, q) ↦
        let (y, at, holds) = position_holds p xs j q in
        let same : i ≡ suc j = ground arith in (y, rw same at, holds)
  ]
]

pub position_first :
    (p : ℕ → Bool) (xs : List ℕ) (i k : ℕ) {y : ℕ}
    → position p xs ≡ some i
    → k < i
    → get_elem? xs k ≡ some y
    → p y ≡ false
unfolding position
position_first p [] i k h below at = cc
position_first p (x ∷ xs) i zero h below at = ground arith
position_first p (x ∷ xs) i (suc k) {y} h below at = elim (Option-cases (position p xs)) [
  | inl q ↦ ground arith
  | inr (j, q) ↦ ground (arith, position_first p xs j k {y = y} q)
]

pub position_absent :
    (p : ℕ → Bool) (xs : List ℕ) (k : ℕ) {y : ℕ}
    → position p xs ≡ none
    → get_elem? xs k ≡ some y
    → p y ≡ false
unfolding position
position_absent p [] k h at = cc
position_absent p (x ∷ xs) zero h at = ground arith
position_absent p (x ∷ xs) (suc k) {y} h at = ground (arith, position_absent p xs k {y = y})

minimum_from-le_self : (a : ℕ) (xs : List ℕ) → minimum_from a xs ≤ a
unfolding minimum_from smaller
minimum_from-le_self a [] = omega arith
minimum_from-le_self a (x ∷ xs) = ground (arith, minimum_from-le_self (smaller a x) xs)

minimum_from-le :
    (a : ℕ) (xs : List ℕ) (k : ℕ) {y : ℕ} → get_elem? xs k ≡ some y → minimum_from a xs ≤ y
unfolding minimum_from smaller
minimum_from-le a [] k h = absurd (cc)
minimum_from-le a (x ∷ xs) zero h = ground (arith, minimum_from-le_self (smaller a x) xs)
minimum_from-le a (x ∷ xs) (suc k) h = minimum_from-le (smaller a x) xs k h

minimum_from_held :
    (a : ℕ) (xs : List ℕ)
    → (minimum_from a xs ≡ a) ⊎ ((k : ℕ) × (get_elem? xs k ≡ some (minimum_from a xs)))
unfolding minimum_from
minimum_from_held a [] = inl refl
minimum_from_held a (x ∷ xs) = elim (minimum_from_held (smaller a x) xs) [
  | inr (k, e) ↦ inr (suc k, e)
  | inl e ↦ elim (smaller-cases a x) [
    | inl old ↦ inl (e ∙ old)
    | inr fresh ↦ inr (0, ap some (sym (e ∙ fresh)))
  ]
]
  where
    smaller-cases : (b c : ℕ) → (smaller b c ≡ b) ⊎ (smaller b c ≡ c)
    smaller-cases b c = unfold smaller in ground arith

least-le : (x : ℕ) (xs : List ℕ) (k y : ℕ) → get_elem? (x ∷ xs) k ≡ some y → minimum_from x xs ≤ y
least-le x xs zero y h = ground (arith, minimum_from-le_self x xs)
least-le x xs (suc k) y h = minimum_from-le x xs k h

least_held : (x : ℕ) (xs : List ℕ) → (k : ℕ) × (get_elem? (x ∷ xs) k ≡ some (minimum_from x xs))
least_held x xs = elim (minimum_from_held x xs) [
  | inl e ↦ (0, ap some (sym e))
  | inr (k, e) ↦ (suc k, e)
]

abbrev FirstLeast : List ℕ → ℕ → ℕ → Type 0
FirstLeast xs m i =
    (get_elem? xs i ≡ some m)
    × ((k y : ℕ) → get_elem? xs k ≡ some y → m ≤ y)
    × ((k y : ℕ) → k < i → get_elem? xs k ≡ some y → m < y)

-- `min().unwrap()` and `position(..).unwrap()` on a list that is not empty: the place of the first
-- least element.
argmin :
    (xs : List ℕ)
    → 0 < length xs
    → (m i : ℕ) × (minimum xs ≡ some m) × (position (λ x. x == m) xs ≡ some i) × FirstLeast xs m i
unfolding minimum
argmin [] h = absurd (omega arith)
argmin (x ∷ xs) h = elim (Option-cases (position (λ y. y == minimum_from x xs) (x ∷ xs))) [
  | inl e ↦
      let (k, at) = least_held x xs in
      absurd (ground (arith, position_absent (λ y. y == minimum_from x xs) (x ∷ xs) k e at))
  | inr (i, e) ↦
      let (y, at, holds) = position_holds (λ y. y == minimum_from x xs) (x ∷ xs) i e in
      let same : y ≡ minimum_from x xs = ground arith in
      (
        minimum_from x xs,
        i,
        refl,
        e,
        (
          rw (← same) at,
          least-le x xs,
          λ k z below at_k.
              let other = position_first (λ y. y == minimum_from x xs) (x ∷ xs) i k e below at_k in
              let le = least-le x xs k z at_k in ground arith,
        ),
      )
]

-- The range that `select_window` gives: within the model, of the asked size, least loaded, and the
-- first such one.
pub record IsBestWindow (xs : List ℕ) (layers index : ℕ) : Type 0 where
  pub within : index + layers ≤ length xs
  pub least : (k : ℕ) → k + layers ≤ length xs → load xs index layers ≤ load xs k layers
  pub first : (k : ℕ) → k < index → load xs index layers < load xs k layers

-- Where fewer layers than the model has, and at least one, are asked for, `select_window` does not
-- panic: it gives a window of that size within the model, of the least load of all, and the first
-- such one, provided that the model has fewer than 2^32 layers and the counts add up to less than
-- 2^64.
pub select_window-IsBestWindow :
    (xs : List ℕ) (layers : ℕ)
    → 0 < layers
    → layers < length xs
    → length xs < 2 ^ 32
    → sum xs < 2 ^ 64
    → (index : ℕ) × (select_window xs layers
        ≡ done (enough_layers (record { start = index; end = index + layers })))
      × IsBestWindow xs layers index
unfolding select_window
select_window-IsBestWindow xs layers pos narrow short small =
    let (sums, e, len, at) = sum_in_window_lem xs layers pos narrow small in
    let (m, i, e_min, e_pos, (at_i, least, first)) = argmin sums (omega arith) in
    let inside = get_elem?_inside sums i at_i in
    let load_i = some-injective _ _ (sym (at i (omega arith)) ∙ at_i) in
    (
      i,
      ground arith,
      record {
        within = omega arith;
        least = λ k h. rw load_i (least k (load xs k layers) (at k h));
        first = λ k h. rw load_i (first k (load xs k layers) h (at k (omega arith)));
      },
    )
