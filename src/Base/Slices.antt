-- ===== src/Base/Slices.antt =====
-- Slices of lists.
use Prim.Native.Nat.{ℕ, zero, suc, ◌+◌, ◌-◌, ◌≤◌, min}
use mathlib.Core.Path.{◌≡◌, refl, sym, ap, subst, ◌∙◌}
use mathlib.Core.Bool.{true, false}
use mathlib.Core.List.{List, [], ◌∷◌, ◌++◌, flatten, append_assoc}
use native.Mathlib.Omega.{arith}
use decentralized_llm_infere.Base.Tests.{ltb, ◌==◌}
use decentralized_llm_infere.Base.Lists.{length, take, drop}

module _ {ℓ} {A : Type ℓ} where
  pub drop-take_empty : (m n : ℕ) (ts : List A) → (length ts == 0) ≡ true → drop m (take n ts) ≡ []
  drop-take_empty zero zero [] h = refl
  drop-take_empty zero (suc n) [] h = refl
  drop-take_empty (suc m) zero [] h = refl
  drop-take_empty (suc m) (suc n) [] h = refl
  drop-take_empty m n (t ∷ ts) h = absurd (ground arith)

  pub take-length : (ts : List A) → take (length ts) ts ≡ ts
  take-length [] = refl
  take-length (t ∷ ts) = ap (λ x. t ∷ x) (take-length ts)

  pub take-append : (n : ℕ) (ts us : List A) → n ≤ length ts → take n (ts ++ us) ≡ take n ts
  take-append zero ts us h = refl
  take-append (suc n) [] us h = absurd (omega arith)
  take-append (suc n) (t ∷ ts) us h = ap (λ x. t ∷ x) (take-append n ts us (omega arith))

  pub take-append-drop : (n : ℕ) (ts : List A) → take n ts ++ drop n ts ≡ ts
  take-append-drop zero ts = refl
  take-append-drop (suc n) [] = refl
  take-append-drop (suc n) (t ∷ ts) = ap (λ x. t ∷ x) (take-append-drop n ts)

  pub drop-take-append :
      (m n : ℕ) (ts : List A) → m ≤ n → drop m (take n ts) ++ drop n ts ≡ drop m ts
  drop-take-append zero n ts h = take-append-drop n ts
  drop-take-append (suc m) zero ts h = absurd (omega arith)
  drop-take-append (suc m) (suc n) [] h = refl
  drop-take-append (suc m) (suc n) (t ∷ ts) h = drop-take-append m n ts (omega arith)

  pub length-drop : (n : ℕ) (xs : List A) → length (drop n xs) ≡ length xs - n
  length-drop zero xs = omega arith
  length-drop (suc n) [] = omega arith
  length-drop (suc n) (x ∷ xs) = omega (arith, length-drop n xs)

  pub length-take : (n : ℕ) (xs : List A) → length (take n xs) ≡ min n (length xs)
  length-take zero xs = ground arith
  length-take (suc n) [] = ground arith
  length-take (suc n) (x ∷ xs) = ground (arith, length-take n xs)

  pub take_all : (n : ℕ) (xs : List A) → length xs ≤ n → take n xs ≡ xs
  take_all zero [] h = refl
  take_all zero (x ∷ xs) h = absurd (omega arith)
  take_all (suc n) [] h = refl
  take_all (suc n) (x ∷ xs) h = ap (λ ys. x ∷ ys) (take_all n xs (omega arith))

  pub take-drop :
      (n o m : ℕ) (xs : List A) → m ≡ o + n → take n (drop o xs) ++ drop m xs ≡ drop o xs
  take-drop n zero m xs h =
      subst (λ k. take n xs ++ drop k xs ≡ xs) (let e : n ≡ m = omega arith in e)
        (take-append-drop n xs)
  take-drop n (suc o) zero xs h = absurd (omega arith)
  take-drop zero (suc o) (suc m) [] h = refl
  take-drop (suc n) (suc o) (suc m) [] h = refl
  take-drop n (suc o) (suc m) (x ∷ xs) h = take-drop n o m xs (omega arith)

  pub empty_of_length : (xs : List A) → ltb 0 (length xs) ≡ false → xs ≡ []
  empty_of_length [] h = refl
  empty_of_length (x ∷ xs) h = absurd (ground (arith, h))

  pub flatten-append : (xs ys : List (List A)) → flatten (xs ++ ys) ≡ flatten xs ++ flatten ys
  unfolding flatten
  flatten-append [] ys = refl
  flatten-append (x ∷ xs) ys =
      ap (λ t. x ++ t) (flatten-append xs ys) ∙ sym (append_assoc x (flatten xs) (flatten ys))
