-- ===== src/P2p/Buffer/Pieces.antt =====
-- The ordered map of the pieces of a frame in ConnectionBuffer of
-- crates/p2p-network/src/node/remote_conn.rs, whatever the order they came in.
use decentralized_llm_infere.Base.{
  ℕ, suc, ◌<◌, ◌≡◌, ◌≢◌, refl, sym, ap, ◌∙◌, subst, List, [], ◌∷◌, ◌++◌, map, length, All, arith,
  none,
}
use mathlib.Core.List.{append_assoc, append-nil, Permᴰ}
use decentralized_llm_infere.Base.BTreeMap.{BTreeMap, insert, get, get-insert, insert_comm}

-- A piece of a frame with its number.
abbrev pub Piece : Type 0
Piece = ℕ × List ℕ

abbrev pub number : ℕ → List (List ℕ) → List Piece
number i [] = []
number i (s ∷ ss) = (i, s) ∷ number (suc i) ss

abbrev pub insert_all : List Piece → BTreeMap (List ℕ) → BTreeMap (List ℕ)
insert_all [] m = m
insert_all (p ∷ ps) m = insert_all ps (insert p.0 p.1 m)

-- No piece has a number that the map has, or that an earlier piece has.
abbrev pub Fresh : List Piece → BTreeMap (List ℕ) → Type 0
Fresh [] m = Unit
Fresh (p ∷ ps) m = (get p.0 m ≡ none) × Fresh ps (insert p.0 p.1 m)

distinct : (i j : ℕ) (s : List ℕ) (m : BTreeMap (List ℕ)) → get j (insert i s m) ≡ none → i ≢ j
distinct i j s m h e = ground (arith, get-insert i j s m)

behind :
    (i j : ℕ) (s : List ℕ) (m : BTreeMap (List ℕ)) → get j (insert i s m) ≡ none → get j m ≡ none
behind i j s m h = ground (arith, get-insert i j s m)

not_there :
    (i j : ℕ) (s : List ℕ) (m : BTreeMap (List ℕ))
    → i ≢ j
    → get i m ≡ none
    → get i (insert j s m) ≡ none
not_there i j s m ne h = ground (arith, get-insert j i s m)

swapped :
    (p q : Piece) (ps : List Piece) (m : BTreeMap (List ℕ))
    → Fresh (p ∷ q ∷ ps) m
    → Fresh (q ∷ p ∷ ps) m × (insert_all (p ∷ q ∷ ps) m ≡ insert_all (q ∷ p ∷ ps) m)
swapped p q ps m h =
    let ne = distinct p.0 q.0 p.1 m h.1.0 in
    let same = insert_comm p.0 q.0 p.1 q.1 m ne in
    (
      (
        behind p.0 q.0 p.1 m h.1.0,
        (not_there p.0 q.0 q.1 m ne h.0, subst (Fresh ps) (sym same) h.1.1),
      ),
      ap (insert_all ps) (sym same),
    )

-- The order does not matter.
pub insert_all-Perm :
    {ps qs : List Piece}
    → Permᴰ ps qs
    → (m : BTreeMap (List ℕ)) → Fresh ps m
    → Fresh qs m × (insert_all ps m ≡ insert_all qs m)
insert_all-Perm Permᴰ.nil m h = (h, refl)
insert_all-Perm (Permᴰ.cons {a = p} {b = q} {l₁ = ps} {l₂ = qs} e rest) m h =
    let ih = insert_all-Perm rest (insert p.0 p.1 m) h.1 in
    subst (λ r. Fresh (r ∷ qs) m × (insert_all (p ∷ ps) m ≡ insert_all (r ∷ qs) m)) e
      ((h.0, ih.0), ih.1)
insert_all-Perm (Permᴰ.swap {a = p} {b = q} {a' = q'} {b' = p'} {l = ps} e d) m h =
    subst (λ r. Fresh (r ∷ p' ∷ ps) m × (insert_all (p ∷ q ∷ ps) m ≡ insert_all (r ∷ p' ∷ ps) m)) d
      (subst (λ r. Fresh (q ∷ r ∷ ps) m × (insert_all (p ∷ q ∷ ps) m ≡ insert_all (q ∷ r ∷ ps) m)) e
        (swapped p q ps m h))
insert_all-Perm (Permᴰ.trans one two) m h =
    let first = insert_all-Perm one m h in
    let second = insert_all-Perm two m first.0 in (second.0, first.1 ∙ second.1)

insert_last :
    (i : ℕ) (s : List ℕ) (m : BTreeMap (List ℕ))
    → All (λ e. e.0 < i) m
    → (insert i s m ≡ m ++ (i, s) ∷ []) × (get i m ≡ none)
unfolding insert get
insert_last i s [] h = (refl, refl)
insert_last i s ((j, t) ∷ m) h = let ih = insert_last i s m h.1 in ground (arith, ih.0, ih.1)

below_append :
    (i : ℕ) (s : List ℕ) (m : BTreeMap (List ℕ))
    → All (λ e. e.0 < i) m
    → All (λ e. e.0 < suc i) (m ++ (i, s) ∷ [])
below_append i s [] h = (omega arith, tt)
below_append i s ((j, t) ∷ m) h = (omega arith, below_append i s m h.1)

-- The pieces in order stand behind each other.
pub insert_all-number :
    (i : ℕ) (ss : List (List ℕ)) (m : BTreeMap (List ℕ))
    → All (λ e. e.0 < i) m
    → Fresh (number i ss) m × (insert_all (number i ss) m ≡ m ++ number i ss)
insert_all-number i [] m h = (tt, sym (append-nil m))
insert_all-number i (s ∷ ss) m h =
    let last = insert_last i s m h in
    let ih = insert_all-number (suc i) ss (m ++ (i, s) ∷ []) (below_append i s m h) in
    (
      (last.1, subst (Fresh (number (suc i) ss)) (sym last.0) ih.0),
      ap (insert_all (number (suc i) ss)) last.0
          ∙ ih.1
          ∙ append_assoc m ((i, s) ∷ []) (number (suc i) ss),
    )

pub map-number : (i : ℕ) (ss : List (List ℕ)) → map (λ (e : Piece). e.1) (number i ss) ≡ ss
map-number i [] = refl
map-number i (s ∷ ss) = ap (λ r. s ∷ r) (map-number (suc i) ss)

pub length-number : (i : ℕ) (ss : List (List ℕ)) → length (number i ss) ≡ length ss
length-number i [] = refl
length-number i (s ∷ ss) = ap suc (length-number (suc i) ss)
