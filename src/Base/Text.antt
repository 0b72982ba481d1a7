-- ===== src/Base/Text.antt =====
-- Keys that are texts or pairs.
use Prim.Native.String.{String}
use mathlib.Core.Path.{◌≡◌, refl, ap}
use mathlib.Core.Logic.{ite, if_pos, if_neg}
use mathlib.Core.Bool.{Bool, true, false}
use text.Mathlib.Text.{◌==◌ as str_eq}
use text.Mathlib.TextEquality.{eq_iff}
use decentralized_llm_infere.Base.Maps.{Key}

String-dec_of : (s t : String) (b : Bool) → str_eq s t ≡ b → Dec (s ≡ t)
String-dec_of s t true e = yes ((eq_iff s t).0 e)
String-dec_of s t false e = no (λ p. let same : str_eq s t ≡ true = (eq_iff s t).1 p in cc)

unfoldable pub string_dec : Discrete String
unfolding String-dec_of
string_dec s t = String-dec_of s t (str_eq s t) refl

instance abbrev pub string_key : Key String
string_key = record { dec = string_dec }

-- A key of two parts.
unfoldable pub pair_dec {ℓ} : {A B : Type ℓ} → Key A → Key B → Discrete (A × B)
pair_dec a b (x, y) (x', y') = elim (a.dec x x') [
  | yes p ↦ elim (b.dec y y') [
    | yes q ↦ yes (λ i. (p i, q i))
    | no q ↦ no (λ e. q (ap (λ z. z.1) e))
  ]
  | no p ↦ no (λ e. p (ap (λ z. z.0) e))
]

instance abbrev pub pair_key {ℓ} : {A B : Type ℓ} ⦃a : Key A⦄ ⦃b : Key B⦄ → Key (A × B)
pair_key ⦃a⦄ ⦃b⦄ = record { dec = pair_dec a b }

pub ite-pair_dec {ℓ κ} :
    {A B : Type ℓ} {C : Type κ} (a : Key A) (b : Key B) (x x' : A) (y y' : B) (t e : C)
    → ite (pair_dec a b (x, y) (x', y')) t e ≡ ite (a.dec x x') (ite (b.dec y y') t e) e
ite-pair_dec a b x x' y y' t e = elim (pair_dec a b (x, y) (x', y')) [
  | yes p ↦ rw (if_pos _ p) (rw (if_pos _ (ap (λ z. z.0) p), if_pos _ (ap (λ z. z.1) p)))
  | no p ↦ rw (if_neg _ p) (elim (a.dec x x') [
    | yes q ↦
        rw (if_pos _ q)
          (elim (b.dec y y') [ yes r ↦ absurd (p (λ i. (q i, r i))) | no r ↦ rw (if_neg _ r) ])
    | no q ↦ rw (if_neg _ q)
  ])
]
