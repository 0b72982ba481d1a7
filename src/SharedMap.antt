-- ===== src/SharedMap.antt =====
-- SharedHashMap of crates/utils/src/shared_map.rs: a hash map behind a lock, which each operation
-- takes alone, so that an operation is a step on the map.
use decentralized_llm_infere.Base.{
  ℕ, ◌≡◌, refl, ap, ◌∙◌, Bool, Option, none, some, List, [], HashMap, Key, nat_key, ◌==◌,
  if◌then◌else◌, arith, get-insert, get-remove, ℕ_discrete,
}
use decentralized_llm_infere.Base as Base

module _ {K V : Type 0} ⦃key : Key K⦄ where
  unfoldable pub new : HashMap K V
  new = []

  unfoldable pub get_clone : K → HashMap K V → Option V
  get_clone k m = Base.get k m

  -- The old value and the map.
  unfoldable pub insert : K → V → HashMap K V → Option V × HashMap K V
  insert k v m = (Base.get k m, Base.insert k v m)

  unfoldable pub remove : K → HashMap K V → Option V × HashMap K V
  remove k m = (Base.get k m, Base.remove k m)

  unfoldable pub contains_key : K → HashMap K V → Bool
  contains_key k m = Base.contains_key k m

module _ {V : Type 0} where
  pub get_clone-insert :
      (s t : ℕ) (v : V) (m : HashMap ℕ V)
      → get_clone t (insert s v m).1 ≡ (if t == s then some v else get_clone t m)
  unfolding get_clone insert
  get_clone-insert s t v m = ground (arith, get-insert s t v m)

  pub get_clone-remove :
      (s t : ℕ) (m : HashMap ℕ V)
      → get_clone t (remove s m).1 ≡ (if t == s then none else get_clone t m)
  unfolding get_clone remove
  get_clone-remove s t m = ground (arith, get-remove s t m)

  pub get_clone-new : (s : ℕ) → get_clone {K = ℕ} {V = V} s new ≡ none
  unfolding get_clone new Base.get
  get_clone-new s = refl
