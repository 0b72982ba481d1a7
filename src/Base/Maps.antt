-- ===== src/Base/Maps.antt =====
-- The hash map of the standard library, as an association list in the order of its iteration.
-- That order is not specified; no law below depends on it.
use Prim.Native.Nat.{ℕ, ◌≤◌}
use mathlib.Core.Path.{◌≡◌, refl, sym, ap, ◌∙◌}
use mathlib.Core.Logic.{◌≢◌, ite, if_pos, if_neg}
use mathlib.Core.Bool.{Bool, true, false}
use mathlib.Core.Option.{Option, none, some}
use mathlib.Core.List.{List, [], ◌∷◌, map}
use native.Mathlib.Omega.{arith}
unfoldable use native.Mathlib.Decide.{ℕ_discrete}
use decentralized_llm_infere.Base.Tests.{if◌then◌else◌}
use decentralized_llm_infere.Base.Lists.{length}

-- `Eq + Hash` of a key.
pub record Key {ℓ} (K : Type ℓ) : Type ℓ where
  pub dec : Discrete K

instance abbrev pub nat_key : Key ℕ
nat_key = record { dec = ℕ_discrete }

abbrev pub HashMap {ℓ} : Type ℓ → Type ℓ → Type ℓ
HashMap K V = List (K × V)

abbrev pub keys {ℓ} : {K V : Type ℓ} → HashMap K V → List K
keys = map (λ e. e.0)

abbrev pub values {ℓ} : {K V : Type ℓ} → HashMap K V → List V
values = map (λ e. e.1)

abbrev is_some {ℓ} : {A : Type ℓ} → Option A → Bool
is_some none = false
is_some (some a) = true

is_some-ite {ℓ κ} :
    {A : Type ℓ} {P : Type κ} (d : Dec P) (a b : Option A)
    → is_some (ite d a b) ≡ ite d (is_some a) (is_some b)
is_some-ite (yes p) a b = refl
is_some-ite (no p) a b = refl

-- What `retain` leaves of the value of a key.
abbrev pub kept {ℓ} : {V : Type ℓ} → (V → Bool) → Option V → Option V
kept p none = none
kept p (some v) = if p v then some v else none

pub kept-some {ℓ} :
    {V : Type ℓ} (p : V → Bool) (o : Option V) {v : V}
    → kept p o ≡ some v
    → (o ≡ some v) × (p v ≡ true)
kept-some p none h = cc
kept-some p (some w) h = ground arith

module _ {ℓ} {K V : Type ℓ} where
  unfoldable pub retain : (V → Bool) → HashMap K V → HashMap K V
  retain p [] = []
  retain p ((j, w) ∷ m) = if p w then (j, w) ∷ retain p m else retain p m

  pub length-retain-le : (p : V → Bool) (m : HashMap K V) → length (retain p m) ≤ length m
  unfolding retain
  length-retain-le p [] = omega arith
  length-retain-le p ((j, w) ∷ m) = ground (arith, length-retain-le p m)

  pub retain_all :
      (p : V → Bool) (m : HashMap K V) → length (retain p m) ≡ length m → retain p m ≡ m
  unfolding retain
  retain_all p [] h = refl
  retain_all p ((j, w) ∷ m) h = ground (arith, retain_all p m, length-retain-le p m)

module _ {ℓ} {K V : Type ℓ} ⦃key : Key K⦄ where
  unfoldable pub get : K → HashMap K V → Option V
  get k [] = none
  get k ((j, v) ∷ m) = ite (key.dec k j) (some v) (get k m)

  unfoldable pub contains_key : K → HashMap K V → Bool
  contains_key k m = is_some (get k m)

  unfoldable pub insert : K → V → HashMap K V → HashMap K V
  insert k v [] = (k, v) ∷ []
  insert k v ((j, w) ∷ m) = ite (key.dec k j) ((k, v) ∷ m) ((j, w) ∷ insert k v m)

  unfoldable pub remove : K → HashMap K V → HashMap K V
  remove k [] = []
  remove k ((j, w) ∷ m) = ite (key.dec k j) (remove k m) ((j, w) ∷ remove k m)

  pub get-insert :
      (k j : K) (v : V) (m : HashMap K V)
      → get j (insert k v m) ≡ ite (key.dec j k) (some v) (get j m)
  unfolding get insert
  get-insert k j v [] = refl
  get-insert k j v ((i, w) ∷ m) = ground (arith, get-insert k j v m)

  pub get-insert_same : (k : K) (v : V) (m : HashMap K V) → get k (insert k v m) ≡ some v
  get-insert_same k v m = ground (arith, get-insert k k v m)

  pub get-insert_other :
      (k j : K) (v : V) (m : HashMap K V) → k ≢ j → get j (insert k v m) ≡ get j m
  get-insert_other k j v m h =
      get-insert k j v m ∙ if_neg (key.dec j k) (λ e. h (sym e)) (some v) (get j m)

  pub get-remove :
      (k j : K) (m : HashMap K V) → get j (remove k m) ≡ ite (key.dec j k) none (get j m)
  unfolding get remove
  get-remove k j [] = ground arith
  get-remove k j ((i, w) ∷ m) = ground (arith, get-remove k j m)

  pub get-remove_same : (k : K) (m : HashMap K V) → get k (remove k m) ≡ none
  get-remove_same k m = get-remove k k m ∙ if_pos (key.dec k k) refl none (get k m)

  pub contains_key-insert_same :
      (k : K) (v : V) (m : HashMap K V) → contains_key k (insert k v m) ≡ true
  unfolding contains_key
  contains_key-insert_same k v m = ap is_some (get-insert_same k v m)

  -- Every key stands once, as in the standard library's map.
  abbrev pub Uniq : HashMap K V → Type ℓ
  Uniq [] = Unit
  Uniq ((k, v) ∷ m) = (get k m ≡ none) × Uniq m

  pub insert-Uniq : (k : K) (v : V) (m : HashMap K V) → Uniq m → Uniq (insert k v m)
  unfolding get insert
  insert-Uniq k v [] u = (refl, tt)
  insert-Uniq k v ((j, w) ∷ m) u = ground (arith, insert-Uniq k v m u.1, get-insert k j v m)

  pub remove-Uniq : (k : K) (m : HashMap K V) → Uniq m → Uniq (remove k m)
  unfolding get remove
  remove-Uniq k [] u = tt
  remove-Uniq k ((j, w) ∷ m) u = ground (arith, remove-Uniq k m u.1, get-remove k j m)

  pub get-retain-none :
      (p : V → Bool) (k : K) (m : HashMap K V) → get k m ≡ none → get k (retain p m) ≡ none
  unfolding get retain
  get-retain-none p k [] h = refl
  get-retain-none p k ((j, w) ∷ m) h = ground (arith, get-retain-none p k m)

  pub retain-Uniq : (p : V → Bool) (m : HashMap K V) → Uniq m → Uniq (retain p m)
  unfolding retain
  retain-Uniq p [] u = tt
  retain-Uniq p ((j, w) ∷ m) u = ground (arith, retain-Uniq p m u.1, get-retain-none p j m u.0)

  pub get-retain :
      (p : V → Bool) (k : K) (m : HashMap K V) → Uniq m → get k (retain p m) ≡ kept p (get k m)
  unfolding get retain
  get-retain p k [] u = refl
  get-retain p k ((j, w) ∷ m) u = ground (arith, get-retain p k m u.1, get-retain-none p k m)

  pub remove_absent : (k : K) (m : HashMap K V) → get k m ≡ none → remove k m ≡ m
  unfolding get remove
  remove_absent k [] h = refl
  remove_absent k ((j, w) ∷ m) h = ground (arith, remove_absent k m)

  pub get-tail_none :
      (k j : K) (w : V) (m : HashMap K V) → get k ((j, w) ∷ m) ≡ none → get k m ≡ none
  unfolding get
  get-tail_none k j w m h = ground arith

  -- An entry behind another one of a map is still found.
  pub get_behind :
      (k j : K) {v : V} (w : V) (m : HashMap K V)
      → get j m ≡ none
      → get k m ≡ some v
      → get k ((j, w) ∷ m) ≡ some v
  unfolding get
  get_behind k j w m absent found = ground arith

  -- So is an entry of which the first two are one.
  pub get_second :
      (k i j : K) {v : V} (u w : V) (m : HashMap K V)
      → get j m ≡ none
      → get k ((i, u) ∷ m) ≡ some v
      → get k ((i, u) ∷ (j, w) ∷ m) ≡ some v
  unfolding get
  get_second k i j u w m absent found = ground arith

  pub get_self : (k : K) (v : V) (m : HashMap K V) → get k ((k, v) ∷ m) ≡ some v
  unfolding get
  get_self k v m = ground arith

  pub get-eq-none : (k : K) (m : HashMap K V) → contains_key k m ≡ false → get k m ≡ none
  unfolding contains_key
  get-eq-none k m h = ground arith

  pub contains_key-get :
      (k : K) (m : HashMap K V) → contains_key k m ≡ true → (v : V) × (get k m ≡ some v)
  unfolding contains_key
  contains_key-get k m h = ground arith

  pub contains_key-insert :
      (k j : K) (v : V) (m : HashMap K V)
      → contains_key j (insert k v m) ≡ ite (key.dec j k) true (contains_key j m)
  unfolding contains_key
  contains_key-insert k j v m =
      ap is_some (get-insert k j v m) ∙ is_some-ite (key.dec j k) (some v) (get j m)

  pub contains_key-remove :
      (k j : K) (m : HashMap K V)
      → contains_key j (remove k m) ≡ ite (key.dec j k) false (contains_key j m)
  unfolding contains_key
  contains_key-remove k j m =
      ap is_some (get-remove k j m) ∙ is_some-ite (key.dec j k) none (get j m)
