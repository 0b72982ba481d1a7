-- ===== src/Models/Sessions.antt =====
-- What a layers' worker promises of its sessions: each one has a memory of its own, which is made by
-- what was passed on in this session since it started, and by nothing else.
use decentralized_llm_infere.Base.{
  ℕ, ◌≡◌, refl, Option, none, some, List, [], ◌∷◌, ◌++◌, ◌==◌, if◌then◌else◌, Outcome, done,
  panicked, ◌>>=◌, >>=-eq-done,
}

-- The calls of `ModelLayersWorker` with their session, and their answers.
pub data Call (X : Type 0) : Type 0 where
  start : (session : ℕ) → Call X
  forward : (session : ℕ) → X → Call X
  finish : (session : ℕ) → Call X

pub data Reply (Y : Type 0) : Type 0 where
  started finished : Reply Y
  answered : Option Y → Reply Y

-- The answers of a worker to one call after the other.
unfoldable pub replies :
    {X Y W : Type 0}
    → (Call X → W → Outcome (Reply Y × W))
    → List (Call X)
    → W
    → Outcome (List (Reply Y))
replies serve [] w = done []
replies serve (c ∷ cs) w = serve c w >>= λ r. replies serve cs r.1 >>= λ rs. done (r.0 ∷ rs)

-- The inputs of each open session.
abbrev pub Histories : Type 0 → Type 0
Histories X = ℕ → Option (List X)

abbrev pub update : {X : Type 0} → ℕ → Option (List X) → Histories X → Histories X
update s v h t = if t == s then v else h t

module _ {X Y C : Type 0} (fresh : C) (pass : X → C → Option Y × C) where
  -- The memory behind some inputs.
  unfoldable pub replay : C → List X → C
  replay c [] = c
  replay c (x ∷ xs) = replay (pass x c).1 xs

  unfoldable pub forward_at :
      ℕ → X → Option (List X) → Histories X → Outcome (Reply Y × Histories X)
  forward_at s x none h = panicked
  forward_at s x (some xs) h =
      done (answered (pass x (replay fresh xs)).0, update s (some (xs ++ x ∷ [])) h)

  -- The specification of a worker: a call of a session that is not open has no answer.
  unfoldable pub specified : Call X → Histories X → Outcome (Reply Y × Histories X)
  specified (start s) h = done (started, update s (some []) h)
  specified (forward s x) h = forward_at s x (h s) h
  specified (finish s) h = done (finished, update s none h)

  pub replay-append :
      (c : C) (xs : List X) (x : X) → replay c (xs ++ x ∷ []) ≡ (pass x (replay c xs)).1
  unfolding replay
  replay-append c [] x = refl
  replay-append c (y ∷ xs) x = replay-append (pass y c).1 xs x

  -- A worker whose steps follow the specification answers as it does.
  pub replies-specified :
      {W : Type 0} (serve : Call X → W → Outcome (Reply Y × W)) (Rep : Histories X → W → Type 0)
      → ((c : Call X) (h : Histories X) (w : W) (r : Reply Y) (h' : Histories X)
          → Rep h w
          → specified c h ≡ done (r, h')
          → (w' : W) × (serve c w ≡ done (r, w')) × Rep h' w')
      → (cs : List (Call X)) (h : Histories X) (w : W) (rs : List (Reply Y)) → Rep h w
      → replies specified cs h ≡ done rs
      → replies serve cs w ≡ done rs
  unfolding replies
  replies-specified serve Rep step [] h w rs rep e = e
  replies-specified serve Rep step (c ∷ cs) h w rs rep e =
      let ((r, h'), e1, e2) = >>=-eq-done (specified c h) _ e in
      let (rest, e3, e4) = >>=-eq-done (replies specified cs h') _ e2 in
      let (w', served, rep') = step c h w r h' rep e1 in
      rw (served, replies-specified serve Rep step cs h' w' rest rep' e3) e4
