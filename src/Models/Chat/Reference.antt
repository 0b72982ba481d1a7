-- ===== src/Models/Chat/Reference.antt =====
-- What a chat is to say: tokens chosen one after the other, each from all the tokens before it, told
-- without a cache, a stream or layers on other nodes.
use decentralized_llm_infere.Base.{
  ℕ, zero, suc, ◌≡◌, ◌<◌, Bool, true, Option, none, some, List, [], ◌∷◌, ◌++◌, length, u32,
  if◌then◌else◌, Outcome, done, panicked, refl, arith, ◌>>=◌,
}
use mathlib.Core.Option
use decentralized_llm_infere.Worker.ModelService.{LayersWorker}

module _ {P : Type 0} (choose : List ℕ → P → Outcome (Option (ℕ × P))) (ends : ℕ → Bool) where
  -- At most so many tokens behind the given ones, up to one that ends the text, with the state of
  -- the one that chooses.
  unfoldable pub generate : ℕ → List ℕ → P → Outcome (Option (List ℕ))
  generate zero tokens p = done (some [])
  generate (suc n) tokens p = choose tokens p >>= λ r. elim r [
    | none ↦ done none
    | some (t, p') ↦
        if ends t
        then done (some [])
        else (generate n (tokens ++ t ∷ []) p' >>= λ out. done (Option.map (λ ts. t ∷ ts) out))
  ]

  -- The same, with the token that ends the text.
  unfoldable pub generate_through : ℕ → List ℕ → P → Outcome (Option (List ℕ))
  generate_through zero tokens p = done (some [])
  generate_through (suc n) tokens p = choose tokens p >>= λ r. elim r [
    | none ↦ done none
    | some (t, p') ↦
        if ends t
        then done (some (t ∷ []))
        else (generate_through n (tokens ++ t ∷ []) p' >>= λ out.
            done (Option.map (λ ts. t ∷ ts) out))
  ]

-- The rest of a text behind its first token.
pub more-eq-done :
    (m : Outcome (Option (List ℕ))) (t : ℕ) {out : List ℕ}
    → (m >>= λ o. done (Option.map (λ (ts : List ℕ). t ∷ ts) o)) ≡ done (some out)
    → (rest : List ℕ) × (m ≡ done (some rest)) × (t ∷ rest ≡ out)
more-eq-done panicked t h = absurd (ground arith)
more-eq-done (done none) t h = absurd (ground arith)
more-eq-done (done (some rest)) t h = (rest, refl, ground (arith, h))

-- A choice behind each token of a text, of which the last one counts.
unfoldable pub choose_each :
    {P : Type 0}
    → (List ℕ → P → Outcome (Option (ℕ × P)))
    → List ℕ
    → List ℕ
    → ℕ
    → P
    → Outcome (Option (ℕ × P))
choose_each choose before [] next p = done (some (next, p))
choose_each choose before (t ∷ ts) next p = choose (before ++ t ∷ []) p >>= λ r. elim r [
  | none ↦ done none
  | some (n, p') ↦ choose_each choose (before ++ t ∷ []) ts n p'
]

-- The layers' worker of a session computes a model, which gives the raw logits behind a sequence of
-- tokens, with a memory of the tokens that it got so far: `Holds tokens l` says that it got these.
-- It is to take each context at the position behind them.
pub record Serves {T L : Type 0} (worker : LayersWorker T L) (session : ℕ)
    (embed : List ℕ → Option (T × ℕ)) (logits_of : T × ℕ → ℕ → Option T) (model : List ℕ → T)
    (Holds : List ℕ → L → Type 0) : Type 0 where
  pub starts : (l : L) → ((worker.start session l).0 ≡ true) × Holds [] (worker.start session l).1
  pub forwards :
      (tokens ctxt : List ℕ) (l : L) (step : ℕ)
      → Holds tokens l
      → 0 < length ctxt
      → (input : T) × (seq_len : ℕ) × (out : T × ℕ) × (l' : L) × (embed ctxt
          ≡ some (input, seq_len))
        × (worker.forward session step (input, u32 seq_len) (length tokens) l ≡ (some out, l'))
        × (logits_of out seq_len ≡ some (model (tokens ++ ctxt)))
        × Holds (tokens ++ ctxt) l'

-- A receiver that stays.
abbrev pub received : {A : Type 0} → A → List A → Bool × List A
received t q = (true, q ++ t ∷ [])
