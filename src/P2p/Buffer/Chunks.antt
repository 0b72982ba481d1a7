-- ===== src/P2p/Buffer/Chunks.antt =====
-- push_frame of crates/p2p-network/src/node/remote_conn.rs: how a frame is cut.
use decentralized_llm_infere.Base.{
  ℕ, zero, suc, ◌-◌, ◌*◌, ◌≤◌, ◌<◌, ◌≡◌, refl, ap, List, [], ◌∷◌, ◌++◌, length, take, drop, All,
  arith,
}
use mathlib.Core.List.{flatten}
use decentralized_llm_infere.P2p.Buffer.{slices}

take-append-drop : (n : ℕ) (xs : List ℕ) → take n xs ++ drop n xs ≡ xs
take-append-drop zero xs = refl
take-append-drop (suc n) [] = refl
take-append-drop (suc n) (x ∷ xs) = ap (λ ys. x ∷ ys) (take-append-drop n xs)

length-drop : (n : ℕ) (xs : List ℕ) → length (drop n xs) ≡ length xs - n
length-drop zero xs = omega arith
length-drop (suc n) [] = omega arith
length-drop (suc n) (x ∷ xs) = omega (arith, length-drop n xs)

length-take-le : (n : ℕ) (xs : List ℕ) → length (take n xs) ≤ n
length-take-le zero xs = omega arith
length-take-le (suc n) [] = omega arith
length-take-le (suc n) (x ∷ xs) = omega (arith, length-take-le n xs)

-- The slices of a frame make it up again.
pub flatten-slices :
    (fuel size : ℕ) (bytes : List ℕ)
    → 0 < size
    → length bytes ≤ fuel
    → flatten (slices fuel size bytes) ≡ bytes
unfolding slices flatten
flatten-slices zero size [] pos h = refl
flatten-slices zero size (b ∷ bytes) pos h = absurd (omega arith)
flatten-slices (suc fuel) size [] pos h = refl
flatten-slices (suc fuel) size (b ∷ bytes) pos h =
    let shorter = length-drop size (b ∷ bytes) in
    rw (flatten-slices fuel size (drop size (b ∷ bytes)) pos (omega arith))
      (take-append-drop size (b ∷ bytes))

-- No slice is longer than the size asked for.
pub slices-All :
    (fuel size : ℕ) (bytes : List ℕ) → All (λ s. length s ≤ size) (slices fuel size bytes)
unfolding slices
slices-All zero size bytes = tt
slices-All (suc fuel) size [] = tt
slices-All (suc fuel) size (b ∷ bytes) =
    (length-take-le size (b ∷ bytes), slices-All fuel size (drop size (b ∷ bytes)))

-- There are n slices as soon as n of them have room for the bytes.
pub length-slices-le :
    (n fuel size : ℕ) (bytes : List ℕ)
    → length bytes ≤ n * size
    → length (slices fuel size bytes) ≤ n
unfolding slices
length-slices-le n zero size bytes h = omega arith
length-slices-le n (suc fuel) size [] h = omega arith
length-slices-le zero (suc fuel) size (b ∷ bytes) h = absurd (omega arith)
length-slices-le (suc n) (suc fuel) size (b ∷ bytes) h =
    let shorter = length-drop size (b ∷ bytes) in
    omega (arith, length-slices-le n fuel size (drop size (b ∷ bytes)) (grind arith))

some_slice :
    (fuel size : ℕ) (bytes : List ℕ)
    → 0 < length bytes
    → length bytes ≤ fuel
    → 0 < length (slices fuel size bytes)
unfolding slices
some_slice fuel size [] pos h = absurd (omega arith)
some_slice zero size (b ∷ bytes) pos h = absurd (omega arith)
some_slice (suc fuel) size (b ∷ bytes) pos h = omega arith

-- Bytes longer than a slice make at least two.
pub length-slices-gt :
    (fuel size : ℕ) (bytes : List ℕ)
    → 0 < size
    → size < length bytes
    → length bytes ≤ fuel
    → 1 < length (slices fuel size bytes)
unfolding slices
length-slices-gt fuel size [] pos long h = absurd (omega arith)
length-slices-gt zero size (b ∷ bytes) pos long h = absurd (omega arith)
length-slices-gt (suc fuel) size (b ∷ bytes) pos long h =
    let shorter = length-drop size (b ∷ bytes) in
    omega (arith, some_slice fuel size (drop size (b ∷ bytes)) (omega arith) (omega arith))
