-- ===== src/Models/RepeatPenalty.antt =====
-- apply_repeat_penalty of crates/models/src/utils.rs.
use decentralized_llm_infere.Base.{
  ℕ, zero, suc, ◌≡◌, refl, Bool, false, Option, none, some, List, [], ◌∷◌, ◌==◌, ◌||◌, get_elem?,
  length, drop, ◌-◌, if◌then◌else◌, arith, ◌⊎◌, inl, inr, Option-cases,
}
use mathlib.Core.Option
use decentralized_llm_infere.Models.{ChatCfg, Floats, Candle, and_then}

-- `HashSet::contains`
unfoldable pub contains : ℕ → List ℕ → Bool
contains t [] = false
contains t (u ∷ us) = t == u || contains t us

module _ {F : Type 0} where
  -- `if let Some(x) = xs.get_mut(i) { *x = f(*x) }`
  unfoldable pub update_at : (F → F) → ℕ → List F → List F
  update_at f i [] = []
  update_at f zero (x ∷ xs) = f x ∷ xs
  update_at f (suc i) (x ∷ xs) = x ∷ update_at f i xs

  -- The loop over the context, with the tokens seen so far.
  unfoldable pub penalize_unseen : (F → F) → List ℕ → List ℕ → List F → List F
  penalize_unseen f seen [] logits = logits
  penalize_unseen f seen (t ∷ ts) logits =
      if contains t seen
      then penalize_unseen f seen ts logits
      else penalize_unseen f (t ∷ seen) ts (update_at f t logits)

  get_elem?-update_at :
      (f : F → F) (i j : ℕ) (xs : List F)
      → get_elem? (update_at f i xs) j
        ≡ (if j == i then Option.map f (get_elem? xs j) else get_elem? xs j)
  unfolding update_at
  get_elem?-update_at f zero zero [] = refl
  get_elem?-update_at f zero (suc j) [] = ground arith
  get_elem?-update_at f (suc i) zero [] = ground arith
  get_elem?-update_at f (suc i) (suc j) [] = ground arith
  get_elem?-update_at f zero zero (x ∷ xs) = refl
  get_elem?-update_at f zero (suc j) (x ∷ xs) = ground arith
  get_elem?-update_at f (suc i) zero (x ∷ xs) = ground arith
  get_elem?-update_at f (suc i) (suc j) (x ∷ xs) = ground (arith, get_elem?-update_at f i j xs)

  -- A token of the context that was not seen yet is changed once, all else stays.
  get_elem?-penalize_unseen :
      (f : F → F) (seen context : List ℕ) (logits : List F) (j : ℕ)
      → get_elem? (penalize_unseen f seen context logits) j ≡ (
          if contains j context
          then (if contains j seen then get_elem? logits j else Option.map f (get_elem? logits j))
          else get_elem? logits j)
  unfolding penalize_unseen contains
  get_elem?-penalize_unseen f seen [] logits j = refl
  get_elem?-penalize_unseen f seen (t ∷ ts) logits j = ground (
    arith,
    get_elem?-penalize_unseen f seen ts logits j,
    get_elem?-penalize_unseen f (t ∷ seen) ts (update_at f t logits) j,
    get_elem?-update_at f t j logits,
  )

module _ {T F D : Type 0} (floats : Floats F D) (candle : Candle T F D) where
  unfoldable pub penalized : F → F → F
  penalized penalty logit =
      if floats.le floats.zero logit then floats.div logit penalty else floats.mul logit penalty

  unfoldable pub apply_repeat_penalty : T → F → List ℕ → Option T
  apply_repeat_penalty logits penalty context = and_then (candle.to_f32 logits) λ logits.
      and_then (candle.to_vec1 logits)
        λ logits. candle.from_vec (penalize_unseen (penalized penalty) [] context logits)

  -- The repeat penalty, over the last tokens.
  unfoldable pub penalize : ChatCfg F D → List ℕ → T → Option T
  penalize cfg tokens logits =
      if floats.is_one cfg.repeat_penalty
      then some logits
      else apply_repeat_penalty logits cfg.repeat_penalty
          (drop (length tokens - cfg.repeat_last_n) tokens)

  -- The penalty makes of each logit of a token in the context, however often it stands there, the
  -- logit divided by the penalty if it is at least 0 and multiplied by it otherwise, once, and keeps
  -- the others; a token without a logit is passed over. Where candle refuses, so does the function.
  pub apply_repeat_penalty_lem :
      (logits : T) (penalty : F) (context : List ℕ)
      → (and_then (candle.to_f32 logits) candle.to_vec1 ≡ none)
          × (apply_repeat_penalty logits penalty context ≡ none)
        ⊎ ((old : List F) × (new : List F) × (and_then (candle.to_f32 logits) candle.to_vec1
              ≡ some old)
            × (apply_repeat_penalty logits penalty context ≡ candle.from_vec new)
            × ((j : ℕ)
                → get_elem? new j ≡ (
                    if contains j context
                    then Option.map (penalized penalty) (get_elem? old j)
                    else get_elem? old j)))
  unfolding apply_repeat_penalty
  apply_repeat_penalty_lem logits penalty context = elim (Option-cases (candle.to_f32 logits)) [
    | inl e ↦ inl (rw e, rw e)
    | inr (t, e) ↦ elim (Option-cases (candle.to_vec1 t)) [
      | inl e' ↦ inl (rw (e, e'), rw (e, e'))
      | inr (old, e') ↦ inr (
        old,
        penalize_unseen (penalized penalty) [] context old,
        rw (e, e'),
        rw (e, e'),
        λ j. unfold contains in get_elem?-penalize_unseen (penalized penalty) [] context old j,
      )
    ]
  ]
