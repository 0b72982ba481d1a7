-- ===== src/Worker/Matching.antt =====
-- on_res and recv of crates/worker/src/rpc.rs: an answer goes to the caller that waits for it.
use decentralized_llm_infere.Base.{
  ℕ, suc, ◌+◌, ◌<◌, ◌≡◌, ◌≢◌, ◌^◌, ◌⊎◌, inl, inr, refl, Bool, true, false, Bool-cases, Option,
  Option-cases, none, some, List, [], ◌∷◌, String, get, remove, get-insert, get-insert_same,
  get-remove, nat_key, u32, arith, ite, Outcome, done, panicked, ◌>>=◌, done-injective, subst,
}
use decentralized_llm_infere.Worker.Rpc.{RpcRes, RpcClientRx, on_res, recv}

-- What the main loop does with the client. An answer comes with the callers that wait no longer.
pub data Step : Type 0 where
  ask : (dest : ℕ) (cmd : String) (payload : List ℕ) (tx : ℕ) → Step
  answer : (gone : ℕ → Bool) → RpcRes → Step

abbrev pub step : Step → RpcClientRx → Outcome RpcClientRx
step (ask dest cmd payload tx) c = done (recv dest cmd payload tx c).1
step (answer gone res) c = on_res gone res c >>= λ r. done r.1

abbrev pub run : List Step → RpcClientRx → Outcome RpcClientRx
run [] c = done c
run (s ∷ ss) c = step s c >>= λ c'. run ss c'

abbrev pub asks : List Step → ℕ
asks [] = 0
asks (ask dest cmd payload tx ∷ ss) = suc (asks ss)
asks (answer gone res ∷ ss) = asks ss

abbrev pub Unanswered : ℕ → List Step → Type 0
Unanswered seq [] = Unit
Unanswered seq (ask dest cmd payload tx ∷ ss) = Unanswered seq ss
Unanswered seq (answer gone res ∷ ss) = (res.seq ≢ seq) × Unanswered seq ss

-- What an answer leaves: the seed and every other caller.
record Answers (res : RpcRes) (c c' : RpcClientRx) : Type 0 where
  seed : c'.seq_seed ≡ c.seq_seed
  waits : (seq : ℕ) → get seq c'.waits ≡ ite (nat_key.dec seq res.seq) none (get seq c.waits)

on_res-none :
    (gone : ℕ → Bool) (res : RpcRes) (c : RpcClientRx)
    → get res.seq c.waits ≡ none
    → on_res gone res c ≡ done (none, c)
unfolding on_res
on_res-none gone res c h = ground (arith, h)

on_res-some :
    (gone : ℕ → Bool) (res : RpcRes) (tx : ℕ) (c : RpcClientRx)
    → get res.seq c.waits ≡ some tx
    → gone tx ≡ false
    → on_res gone res c ≡ done (some (tx, res), record c { waits = remove res.seq c.waits })
unfolding on_res
on_res-some gone res tx c h here = rw (on_res, h, here) refl

on_res-gone :
    (gone : ℕ → Bool) (res : RpcRes) (tx : ℕ) (c : RpcClientRx)
    → get res.seq c.waits ≡ some tx
    → gone tx ≡ true
    → on_res gone res c ≡ panicked
unfolding on_res
on_res-gone gone res tx c h left = rw (on_res, h, left) refl

removes-Answers :
    (res : RpcRes) (c : RpcClientRx) → Answers res c (record c { waits = remove res.seq c.waits })
removes-Answers res c = record { seed = refl; waits = λ seq. get-remove res.seq seq c.waits }

on_res-cases :
    (gone : ℕ → Bool) (res : RpcRes) (c : RpcClientRx)
    → (on_res gone res c ≡ panicked)
      ⊎ ((o : Option (ℕ × RpcRes)) × (c' : RpcClientRx) × (on_res gone res c ≡ done (o, c'))
          × Answers res c c')
on_res-cases gone res c = elim (Option-cases (get res.seq c.waits)) [
  | inl nobody ↦
      inr (
        none,
        c,
        on_res-none gone res c nobody,
        record { seed = refl; waits = λ seq. ground arith },
      )
  | inr (tx, waiting) ↦ elim (Bool-cases (gone tx)) [
    | inl left ↦ inl (on_res-gone gone res tx c waiting left)
    | inr here ↦ inr (_, _, on_res-some gone res tx c waiting here, removes-Answers res c)
  ]
]

waits-run :
    (seq tx : ℕ) (ss : List Step) (c c' : RpcClientRx)
    → run ss c ≡ done c'
    → get seq c.waits ≡ some tx
    → seq < suc c.seq_seed
    → c.seq_seed + asks ss < 2 ^ 32
    → Unanswered seq ss
    → get seq c'.waits ≡ some tx
unfolding recv
waits-run seq tx [] c c' goes h old few other =
    subst (λ (d : RpcClientRx). get seq d.waits ≡ some tx) (done-injective goes) h
waits-run seq tx (ask dest cmd payload tx' ∷ ss) c c' goes h old few other =
    let small : u32 (c.seq_seed + 1) ≡ c.seq_seed + 1 = omega arith in
    waits-run seq tx ss (recv dest cmd payload tx' c).1 c' goes
      (ground (arith, get-insert (u32 (c.seq_seed + 1)) seq tx' c.waits, small)) (omega arith)
      (omega arith) other
waits-run seq tx (answer gone res ∷ ss) c c' goes h old few (ne, other) =
    elim (on_res-cases gone res c) [
      | inl e ↦ absurd (ground (arith, e, goes))
      | inr (o, c1, e, a) ↦
          let goes' : run ss c1 ≡ done c' = rw e at goes in
          waits-run seq tx ss c1 c' goes' (ground (arith, a.waits seq)) (omega (arith, a.seed))
            (omega (arith, a.seed)) other
    ]

-- A request is answered: where the main loop runs on through requests, and answers with other
-- numbers, and the numbers given so far stay below 2^32, the answer with the request's number goes to
-- the caller that made it if that one still waits, after which a second answer with the number goes
-- to nobody; if the caller is gone, the answer panics the loop.
pub recv-on_res :
    (dest : ℕ) (cmd : String) (payload : List ℕ) (tx : ℕ) (ss : List Step) (c c' : RpcClientRx)
    (gone later : ℕ → Bool) (res again : RpcRes)
    → suc c.seq_seed + asks ss < 2 ^ 32
    → Unanswered (recv dest cmd payload tx c).0.1.seq ss
    → run ss (recv dest cmd payload tx c).1 ≡ done c'
    → res.seq ≡ (recv dest cmd payload tx c).0.1.seq
    → again.seq ≡ res.seq
    → (gone tx ≡ false
        → (c'' : RpcClientRx) × (on_res gone res c' ≡ done (some (tx, res), c''))
          × (on_res later again c'' ≡ done (none, c'')))
      × (gone tx ≡ true → on_res gone res c' ≡ panicked)
unfolding recv
recv-on_res dest cmd payload tx ss c c' gone later res again few other goes own same =
    let small : u32 (c.seq_seed + 1) ≡ suc c.seq_seed = omega arith in
    let seq = u32 (c.seq_seed + 1) in
    let kept : get seq c'.waits ≡ some tx =
      waits-run seq tx ss (recv dest cmd payload tx c).1 c' goes (get-insert_same seq tx c.waits)
        (omega arith) (omega arith) other in
    let waiting : get res.seq c'.waits ≡ some tx = rw own kept in
    (
      λ here. (
        _,
        on_res-some gone res tx c' waiting here,
        on_res-none later again _ (ground (arith, get-remove res.seq again.seq c'.waits)),
      ),
      λ left. on_res-gone gone res tx c' waiting left,
    )
