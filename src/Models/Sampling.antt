-- ===== src/Models/Sampling.antt =====
-- crates/models/src/logits_processor.rs: the next token out of the logits. An index that the code
-- takes from the list itself lies within it, so a read of it needs no case for a panic.
use decentralized_llm_infere.Base.{
  ℕ, suc, Option, none, some, List, [], ◌∷◌, map, length, get_elem?, get_or, leb, ◌||◌,
  if◌then◌else◌, u32, Outcome, done, expect, ◌>>=◌,
}
use mathlib.Core.Option
use decentralized_llm_infere.Models.{ChatCfg, Floats, Candle, Random, and_then}
use decentralized_llm_infere.Models.RepeatPenalty.{update_at}

pub data Sampling (D : Type 0) : Type 0 where
  arg_max : Sampling D
  all : (temperature : D) → Sampling D
  top_k : (k : ℕ) (temperature : D) → Sampling D
  top_p : (p temperature : D) → Sampling D
  top_k_then_top_p : (k : ℕ) (p temperature : D) → Sampling D

pub record LogitsProcessor (D R : Type 0) : Type 0 where
  pub rng : R
  pub sampling : Sampling D

-- What a sample gives: it may panic, and an error of candle or `rand` is `none`.
abbrev pub Sampled : Type 0 → Type 0
Sampled R = Outcome (Option (ℕ × R))

-- The arms of `match (cfg.top_k, cfg.top_p)`.
unfoldable pub by_cfg : {D : Type 0} → D → Option ℕ → Option D → Sampling D
by_cfg temperature none none = all temperature
by_cfg temperature (some k) none = top_k k temperature
by_cfg temperature none (some p) = top_p p temperature
by_cfg temperature (some k) (some p) = top_k_then_top_p k p temperature

module _ {F D : Type 0} (floats : Floats F D) where
  -- The sampling of a chat.
  unfoldable pub sampling_of : ChatCfg F D → Sampling D
  sampling_of cfg =
      if floats.d_le_zero cfg.temperature
      then arg_max
      else by_cfg cfg.temperature cfg.top_k cfg.top_p

  -- `max_by` over the numbered logits, of which it gives the last greatest.
  unfoldable pub max_from : ℕ → F → ℕ → List F → ℕ
  max_from best_at best i [] = best_at
  max_from best_at best i (x ∷ xs) =
      max_from (if floats.total_le best x then i else best_at)
        (if floats.total_le best x then x else best) (suc i) xs

  unfoldable pub max_by : List F → Option ℕ
  max_by [] = none
  max_by (x ∷ xs) = some (max_from 0 x 1 xs)

  -- `sort_by(|&i, &j| prs[j].total_cmp(&prs[i]))`, which is stable.
  unfoldable pub insert_by : List F → ℕ → List ℕ → List ℕ
  insert_by prs i [] = i ∷ []
  insert_by prs i (j ∷ js) =
      if floats.total_le (get_or prs j floats.zero) (get_or prs i floats.zero)
      then i ∷ j ∷ js
      else j ∷ insert_by prs i js

  -- The positions from `i` on for the numbers of a list, sorted.
  unfoldable pub argsort : List F → ℕ → List F → List ℕ
  argsort prs i [] = []
  argsort prs i (x ∷ xs) = insert_by prs i (argsort prs (suc i) xs)

  -- The loop that clamps smaller probabilities to zero.
  unfoldable pub clamp : F → F → List ℕ → List F → List F
  clamp p cumsum [] prs = prs
  clamp p cumsum (i ∷ is) prs =
      if floats.le p cumsum
      then clamp p cumsum is (update_at (λ _. floats.zero) i prs)
      else clamp p (floats.add cumsum (get_or prs i floats.zero)) is prs

  unfoldable pub sum : F → List F → F
  sum acc [] = acc
  sum acc (x ∷ xs) = sum (floats.add acc x) xs

  module _ {T R : Type 0} (candle : Candle T F D) (random : Random F R) where
    unfoldable pub sample_argmax : T → R → Sampled R
    sample_argmax logits rng = elim (candle.to_vec1 logits) [
      | none ↦ done none
      | some logits ↦ expect (max_by logits) >>= λ i. done (some (u32 i, rng))
    ]

    unfoldable pub sample_multinomial : List F → R → Sampled R
    sample_multinomial prs rng =
        done (Option.map (λ s. (u32 s.0, s.1)) (random.weighted_index prs rng))

    unfoldable pub sample_topp : List F → F → R → Sampled R
    sample_topp prs p rng = sample_multinomial (clamp p floats.zero (argsort prs 0 prs) prs) rng

    -- `indices[index]` as the token, for the position of a sample.
    unfoldable pub chosen : List ℕ → Option (ℕ × R) → Sampled R
    chosen indices none = done none
    chosen indices (some (index, rng)) =
        expect (get_elem? indices index) >>= λ i. done (some (u32 i, rng))

    unfoldable pub sample_topk : List F → ℕ → R → Sampled R
    sample_topk prs k rng =
        let indices = random.select_nth k prs in
        if leb (length prs) k
        then sample_multinomial prs rng
        else (sample_multinomial (map (λ i. get_or prs i floats.zero) indices) rng
            >>= chosen indices)

    unfoldable pub sample_topk_topp : List F → ℕ → F → R → Sampled R
    sample_topk_topp prs k p rng =
        let indices = random.select_nth k prs in
        let kept = map (λ i. get_or prs i floats.zero) indices in
        if leb (length prs) k
        then sample_topp prs p rng
        else ((if floats.le p floats.zero || floats.le (sum floats.zero kept) p
              then sample_multinomial kept rng
              else sample_topp kept p rng)
            >>= chosen indices)

    -- The closure `prs` of `sample_f`.
    unfoldable pub probabilities : T → D → Option (List F)
    probabilities logits temperature =
        and_then (candle.div logits temperature)
          λ logits. and_then (candle.softmax_last_dim logits) candle.to_vec1

    unfoldable pub with_probabilities : T → D → (List F → Sampled R) → Sampled R
    with_probabilities logits temperature f = elim (probabilities logits temperature) [
      | none ↦ done none
      | some prs ↦ f prs
    ]

    unfoldable pub sample_with : Sampling D → T → R → Sampled R
    sample_with arg_max logits rng = sample_argmax logits rng
    sample_with (all temperature) logits rng =
        with_probabilities logits temperature λ prs. sample_multinomial prs rng
    sample_with (top_p p temperature) logits rng = with_probabilities logits temperature λ prs.
        if floats.d_le_zero p || floats.d_ge_one p
        then sample_multinomial prs rng
        else sample_topp prs (floats.to_f32 p) rng
    sample_with (top_k k temperature) logits rng =
        with_probabilities logits temperature λ prs. sample_topk prs k rng
    sample_with (top_k_then_top_p k p temperature) logits rng =
        with_probabilities logits temperature λ prs. sample_topk_topp prs k (floats.to_f32 p) rng

    unfoldable pub put_rng : LogitsProcessor D R → Option (ℕ × R) → Option (ℕ × LogitsProcessor D R)
    put_rng s = Option.map (λ r. (r.0, record s { rng = r.1 }))

    unfoldable pub sample : T → LogitsProcessor D R → Outcome (Option (ℕ × LogitsProcessor D R))
    sample logits s = elim (candle.to_f32 logits) [
      | none ↦ done none
      | some logits ↦ sample_with s.sampling logits s.rng >>= λ r. done (put_rng s r)
    ]

    -- `LogitsProcessor::from_sampling(cfg.seed, sampling)` in `chat`
    unfoldable pub from_cfg : ChatCfg F D → LogitsProcessor D R
    from_cfg cfg = record { rng = random.seed_from_u64 cfg.seed; sampling = sampling_of cfg }
