-- ===== src/Tests/Packing.antt =====
-- A toy encoding for the tests, in the place of bincode.
use decentralized_llm_infere.Base.{
  ℕ, ◌≡◌, refl, ap, Option, none, some, List, [], ◌∷◌, ◌++◌, length, take, drop,
}

-- Lists of numbers behind their lengths, so that they can be read back.
unfoldable pub pack : List ℕ → List ℕ → List ℕ
pack xs rest = length xs ∷ xs ++ rest

unfoldable pub unpack : List ℕ → Option (List ℕ × List ℕ)
unpack [] = none
unpack (n ∷ bytes) = some (take n bytes, drop n bytes)

take_all : (xs rest : List ℕ) → take (length xs) (xs ++ rest) ≡ xs
take_all [] rest = refl
take_all (x ∷ xs) rest = ap (λ ys. x ∷ ys) (take_all xs rest)

drop_all : (xs rest : List ℕ) → drop (length xs) (xs ++ rest) ≡ rest
drop_all [] rest = refl
drop_all (x ∷ xs) rest = drop_all xs rest

pub unpack-pack : (xs rest : List ℕ) → unpack (pack xs rest) ≡ some (xs, rest)
unfolding unpack pack
unpack-pack xs rest = rw (take_all xs rest, drop_all xs rest) refl
