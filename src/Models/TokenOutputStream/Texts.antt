-- ===== src/Models/TokenOutputStream/Texts.antt =====
-- Lemmas on the texts and the slices of tokens that TokenOutputStream works with.
use decentralized_llm_infere.Base.{
  ℕ, ◌+◌, ◌-◌, ◌≤◌, ◌<◌, ◌≡◌, refl, ap, true, false, Option, none, some, List, [], ◌∷◌, ◌++◌,
  length, take, drop, ltb, leb, arith, done,
}
use mathlib.Core.List.{flatten, append-nil}
use decentralized_llm_infere.Models.{Text, len_utf8, text_len, split_at, last}
use decentralized_llm_infere.Models.TokenOutputStream.{slice, pushed}

pub text_len-append : (p t : Text) → text_len (p ++ t) ≡ text_len p + text_len t
unfolding text_len
text_len-append [] t = omega arith
text_len-append (c ∷ p) t = omega (arith, text_len-append p t)

pub text_len-cons : (c : ℕ) (t : Text) → 0 < text_len (c ∷ t)
unfolding text_len
text_len-cons c t = ground arith

pub split_at-append : (p t : Text) → split_at (text_len p) (p ++ t) ≡ done (p, t)
unfolding split_at text_len
split_at-append [] [] = refl
split_at-append [] (c ∷ t) = refl
split_at-append (c ∷ p) t =
    let back : len_utf8 c + text_len p - len_utf8 c ≡ text_len p = omega arith in
    let more : leb (len_utf8 c + text_len p) 0 ≡ false = ground arith in
    let wide : ltb (len_utf8 c + text_len p) (len_utf8 c) ≡ false = ground arith in
    rw (more, wide, back, split_at-append p t)

pub longer : (p : Text) (c : ℕ) (t : Text) → ltb (text_len p) (text_len (p ++ c ∷ t)) ≡ true
longer p c t = ground (arith, text_len-append p (c ∷ t), text_len-cons c t)

pub not_longer : (n : ℕ) → ltb n n ≡ false
not_longer n = ground arith

pub last-cons : (c : ℕ) (t : Text) → (d : ℕ) × (last (c ∷ t) ≡ some d)
unfolding last
last-cons c [] = (c, refl)
last-cons c (d ∷ t) = last-cons d t

pub last-append : (p : Text) (c : ℕ) (t : Text) → last (p ++ c ∷ t) ≡ last (c ∷ t)
unfolding last
last-append [] c t = refl
last-append (d ∷ []) c t = refl
last-append (d ∷ d' ∷ p) c t = last-append (d' ∷ p) c t

pub flatten-pushed :
    (o : Option Text) (ts : List Text) → flatten (pushed o []) ++ flatten ts ≡ flatten (pushed o ts)
unfolding flatten
flatten-pushed none ts = refl
flatten-pushed (some t) ts = ap (λ x. x ++ flatten ts) (append-nil t)

pub slice_lem :
    (ts : List ℕ) (from to : ℕ)
    → from ≤ to
    → to ≤ length ts
    → slice ts from to ≡ done (drop from (take to ts))
unfolding slice
slice_lem ts from to h k = ground arith
