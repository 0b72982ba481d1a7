-- ===== src/Registry/Selection/Windows.antt =====
-- sum_in_window of crates/registry/src/client/layers_selection.rs against sums of slices.
use decentralized_llm_infere.Base.{
  ℕ, zero, suc, ◌+◌, ◌-◌, ◌≤◌, ◌<◌, ◌^◌, ◌≡◌, refl, none, some, List, [], ◌∷◌, length, get_elem?,
  take, drop, arith, done, u64, ap, ◌∙◌, inl, inr, Option-cases,
}
use native.Mathlib.Nat.{add-zero, add-suc, suc-add, zero-add}
use decentralized_llm_infere.Registry.Selection.{window_sum, windows, sum_in_window}

unfoldable pub sum : List ℕ → ℕ
sum [] = 0
sum (x ∷ xs) = x + sum xs

-- The number of nodes that serve the layers of a window.
abbrev pub load : List ℕ → ℕ → ℕ → ℕ
load xs i size = sum (take size (drop i xs))

drop-get_elem?-some :
    (xs : List ℕ) (i size : ℕ) {x : ℕ}
    → get_elem? xs i ≡ some x
    → load xs i (suc size) ≡ x + load xs (suc i) size
unfolding sum
drop-get_elem?-some [] i size h = cc
drop-get_elem?-some (y ∷ xs) zero size h = ground arith
drop-get_elem?-some (y ∷ xs) (suc i) size h = drop-get_elem?-some xs i size h

drop-get_elem?-none : (xs : List ℕ) (i size : ℕ) → get_elem? xs i ≡ none → load xs i size ≡ 0
unfolding sum
drop-get_elem?-none xs i zero h = refl
drop-get_elem?-none [] zero (suc size) h = refl
drop-get_elem?-none [] (suc i) (suc size) h = refl
drop-get_elem?-none (y ∷ xs) zero (suc size) h = cc
drop-get_elem?-none (y ∷ xs) (suc i) (suc size) h = drop-get_elem?-none xs i (suc size) h

load-le-sum : (xs : List ℕ) (i size : ℕ) → load xs i size ≤ sum xs
unfolding sum
load-le-sum xs i zero = omega arith
load-le-sum [] zero (suc size) = omega arith
load-le-sum [] (suc i) (suc size) = omega arith
load-le-sum (x ∷ xs) zero (suc size) = omega (arith, load-le-sum xs 0 size)
load-le-sum (x ∷ xs) (suc i) (suc size) = omega (arith, load-le-sum xs i (suc size))

load-suc-none : (xs : List ℕ) (i size : ℕ) → get_elem? xs i ≡ none → load xs (suc i) size ≡ 0
unfolding sum
load-suc-none [] i zero h = refl
load-suc-none [] i (suc size) h = refl
load-suc-none (y ∷ xs) zero size h = cc
load-suc-none (y ∷ xs) (suc i) size h = load-suc-none xs i size h

-- The inner loop adds up a slice of the distribution, unless the sum passes 64 bits.
window_sum_lem :
    (xs : List ℕ) (i j size acc : ℕ)
    → acc + load xs (i + j) size < 2 ^ 64
    → window_sum xs i j size acc ≡ acc + load xs (i + j) size
unfolding window_sum sum
window_sum_lem xs i j zero acc h = omega arith
window_sum_lem xs i j (suc size) acc h = elim (Option-cases (get_elem? xs (i + j))) [
  | inl e ↦
      let shift = ap (λ k. load xs k size) (add-suc i j) in
      let here = drop-get_elem?-none xs (i + j) (suc size) e in
      let there = load-suc-none xs (i + j) size e in
      rw e (window_sum_lem xs i (suc j) size acc (omega arith) ∙ omega arith)
  | inr (x, e) ↦
      let shift = ap (λ k. load xs k size) (add-suc i j) in
      let here = drop-get_elem?-some xs (i + j) size e in
      let fits : u64 (acc + x) ≡ acc + x = omega arith in
      rw (e, fits) (window_sum_lem xs i (suc j) size (acc + x) (omega arith) ∙ omega arith)
]

windows-at :
    (xs : List ℕ) (size first count k : ℕ)
    → k < count
    → get_elem? (windows xs size first count) k ≡ some (window_sum xs (first + k) 0 size 0)
unfolding windows
windows-at xs size first zero k h = absurd (omega arith)
windows-at xs size first (suc count) zero h = rw add-zero
windows-at xs size first (suc count) (suc k) h =
    rw (add-suc, ← suc-add) (windows-at xs size (suc first) count k (omega arith))

length-windows : (xs : List ℕ) (size first count : ℕ) → length (windows xs size first count) ≡ count
unfolding windows
length-windows xs size first zero = refl
length-windows xs size first (suc count) = ap suc (length-windows xs size (suc first) count)

-- Where the window is narrower than the model and not empty, `sum_in_window` does not panic, and
-- gives for each place of the window the number of nodes that serve its layers, provided that all
-- of them together are counted in 64 bits.
pub sum_in_window_lem :
    (xs : List ℕ) (size : ℕ)
    → 0 < size
    → size < length xs
    → sum xs < 2 ^ 64
    → (sums : List ℕ) × (sum_in_window xs size ≡ done sums)
      × (length sums ≡ length xs - size + 1)
      × ((k : ℕ) → k + size ≤ length xs → get_elem? sums k ≡ some (load xs k size))
unfolding sum_in_window
sum_in_window_lem xs size pos narrow fits = (
  windows xs size 0 (length xs - size + 1),
  ground arith,
  length-windows xs size 0 (length xs - size + 1),
  λ k h.
      let at_k = windows-at xs size 0 (length xs - size + 1) k (omega arith) in
      let small = load-le-sum xs (k + 0) size in
      let total = window_sum_lem xs k 0 size 0 (omega arith) in
      rw (at_k, zero-add, total, zero-add, add-zero),
)
