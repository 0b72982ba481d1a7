-- ===== src/Base/BTreeMap.antt =====
-- The ordered map of the standard library, with numbers for keys: an association list whose keys
-- grow. Used qualified.
use Prim.Native.Nat.{ℕ, suc, ◌<◌}
use mathlib.Core.Path.{◌≡◌, refl}
use mathlib.Core.Logic.{◌≢◌}
use mathlib.Core.Option.{Option, none, some}
use mathlib.Core.List.{List, [], ◌∷◌}
use native.Mathlib.Omega.{arith}
use decentralized_llm_infere.Base.Tests.{ltb, ◌==◌, if◌then◌else◌}
use decentralized_llm_infere.Base.Lists.{length}

abbrev pub BTreeMap {ℓ} : Type ℓ → Type ℓ
BTreeMap V = List (ℕ × V)

module _ {ℓ} {V : Type ℓ} where
  unfoldable pub get : ℕ → BTreeMap V → Option V
  get k [] = none
  get k ((j, v) ∷ m) = if k == j then some v else get k m

  unfoldable pub insert : ℕ → V → BTreeMap V → BTreeMap V
  insert k v [] = (k, v) ∷ []
  insert k v ((j, w) ∷ m) =
      if ltb k j then (k, v) ∷ (j, w) ∷ m else if k == j then (k, v) ∷ m else (j, w) ∷ insert k v m

  unfoldable pub remove : ℕ → BTreeMap V → BTreeMap V
  remove k [] = []
  remove k ((j, w) ∷ m) = if k == j then remove k m else (j, w) ∷ remove k m

  pub get-insert :
      (k j : ℕ) (v : V) (m : BTreeMap V)
      → get j (insert k v m) ≡ (if j == k then some v else get j m)
  unfolding get insert
  get-insert k j v [] = refl
  get-insert k j v ((i, w) ∷ m) = ground (arith, get-insert k j v m)

  pub get-remove :
      (k j : ℕ) (m : BTreeMap V) → get j (remove k m) ≡ (if j == k then none else get j m)
  unfolding get remove
  get-remove k j [] = ground arith
  get-remove k j ((i, w) ∷ m) = ground (arith, get-remove k j m)

  -- Every key of the map is at least `low`, and the keys grow.
  abbrev pub SortedFrom : ℕ → BTreeMap V → Type 0
  SortedFrom low [] = Unit
  SortedFrom low ((k, v) ∷ m) = (low < suc k) × SortedFrom (suc k) m

  pub insert_comm :
      (i j : ℕ) (a b : V) (m : BTreeMap V)
      → i ≢ j
      → insert i a (insert j b m) ≡ insert j b (insert i a m)
  unfolding insert
  insert_comm i j a b [] h = ground arith
  insert_comm i j a b ((k, w) ∷ m) h = ground (arith, insert_comm i j a b m h)

  pub get_below : (k : ℕ) (low : ℕ) (m : BTreeMap V) → SortedFrom low m → k < low → get k m ≡ none
  unfolding get
  get_below k low [] s h = refl
  get_below k low ((j, w) ∷ m) s h = ground (arith, get_below k (suc j) m s.1)

  pub insert-SortedFrom :
      (low k : ℕ) (v : V) (m : BTreeMap V)
      → low < suc k
      → SortedFrom low m
      → SortedFrom low (insert k v m)
  unfolding insert
  insert-SortedFrom low k v [] h s = (h, tt)
  insert-SortedFrom low k v ((j, w) ∷ m) h s = ground (arith, insert-SortedFrom (suc j) k v m)

  pub length-insert :
      (k : ℕ) (v : V) (m : BTreeMap V) → get k m ≡ none → length (insert k v m) ≡ suc (length m)
  unfolding insert get
  length-insert k v [] h = refl
  length-insert k v ((j, w) ∷ m) h = ground (arith, length-insert k v m)
