-- ===== src/Registry/Selection.antt =====
-- crates/registry/src/client/layers_selection.rs: which layers a new worker is to serve, from the
-- number of nodes that serve each layer. `usize` is 64 bits wide.
pub mod Windows
pub mod Gaps
pub mod Choice
pub mod Uncovered
use decentralized_llm_infere.Base.{
  ℕ, zero, suc, ◌+◌, ◌-◌, ◌^◌, ◌%◌, Bool, ◌&&◌, Option, none, some, List, [], ◌∷◌, length,
  get_elem?, ltb, leb, ◌==◌, if◌then◌else◌, u32, u64, Outcome, done, panicked, ◌>>=◌, expect,
}
use mathlib.Core.List.{reverse}
use mathlib.Core.Option
use decentralized_llm_infere.Router.{Range}

pub data LayerSelectionRes : Type 0 where
  enough_layers : Range → LayerSelectionRes
  not_enough_layers : (min_layers : ℕ) → LayerSelectionRes

-- `Iterator::position`
unfoldable pub position : (ℕ → Bool) → List ℕ → Option ℕ
position p [] = none
position p (x ∷ xs) = if p x then some 0 else Option.map suc (position p xs)

-- `Iterator::min`
smaller : ℕ → ℕ → ℕ
smaller a b = if leb a b then a else b

minimum_from : ℕ → List ℕ → ℕ
minimum_from a [] = a
minimum_from a (x ∷ xs) = minimum_from (smaller a x) xs

unfoldable pub minimum : List ℕ → Option ℕ
unfolding minimum_from smaller
minimum [] = none
minimum (x ∷ xs) = some (minimum_from x xs)

-- The inner loop of `sum_in_window`, from index `j` on with `count` rounds left.
window_sum : List ℕ → ℕ → ℕ → ℕ → ℕ → ℕ
window_sum counts i j zero sum = sum
window_sum counts i j (suc count) sum =
    window_sum counts i (suc j) count
      (elim (get_elem? counts (i + j)) [ none ↦ sum | some x ↦ u64 (sum + x) ])

-- The outer loop.
windows : List ℕ → ℕ → ℕ → ℕ → List ℕ
windows counts window_size i zero = []
windows counts window_size i (suc count) =
    window_sum counts i 0 window_size 0 ∷ windows counts window_size (suc i) count

unfoldable pub sum_in_window : List ℕ → ℕ → Outcome (List ℕ)
unfolding windows window_sum
sum_in_window counts window_size =
    if ltb 0 window_size && ltb window_size (length counts)
    then done (windows counts window_size 0 (length counts - window_size + 1))
    else panicked

-- `u32` subtraction
abbrev pub sub32 : ℕ → ℕ → ℕ
sub32 a b = (a + 2 ^ 32 - b) % 2 ^ 32

-- The number of layers from the first layer that nobody serves to the last one.
span_of_missing : List ℕ → Option ℕ → Option ℕ → Option ℕ
span_of_missing distribution (some start) (some end) =
    some (u32 (sub32 (u32 (length distribution - end - 1)) (u32 start) + 1))
span_of_missing distribution _ _ = none

unfoldable pub min_layers : List ℕ → Option ℕ
unfolding span_of_missing
min_layers distribution =
    span_of_missing distribution (position (λ c. c == 0) distribution)
      (position (λ c. c == 0) (reverse distribution))

-- The part of `select_layers` behind the check for missing layers.
unfoldable pub select_window : List ℕ → ℕ → Outcome LayerSelectionRes
select_window distribution layers =
    if leb (u32 (length distribution)) layers
    then done (enough_layers (record { start = 0; end = u32 (length distribution) }))
    else do
      sum_layers ← sum_in_window distribution layers
      min_sum ← expect (minimum sum_layers)
      index ← expect (position (λ x. x == min_sum) sum_layers)
      done (enough_layers (record { start = u32 index; end = u32 (u32 index + layers) }))

unfoldable pub select_layers : List ℕ → ℕ → Outcome LayerSelectionRes
select_layers distribution layers = elim (min_layers distribution) [
  | none ↦ select_window distribution layers
  | some needed ↦
      if ltb layers needed
      then done (not_enough_layers needed)
      else select_window distribution layers
]
