-- ===== src/Registry/Server/Streams/History.antt =====
-- Histories of the main loop of crates/registry/src/server/mod.rs and the tasks of the web sockets that
-- feed it.
use decentralized_llm_infere.Base.{
  ℕ, ◌≡◌, refl, sym, ap, ◌∙◌, inl, inr, ◌⊎◌, ◌↔◌, String, true, some, List, [], ◌∷◌, arith, done,
  ◌>>=◌, get, remove, string_key, nat_key, contains_key, Option-cases,
}
use decentralized_llm_infere.Protocol.Registry.{ToRegistry}
use decentralized_llm_infere.Registry.Server.{StreamEvent, event, end, distribution, health, new}
use decentralized_llm_infere.Registry.Server.Sync.{live, IsSynced, new-IsSynced}
use decentralized_llm_infere.Registry.Server.Streams.{
  System, Action, connects, reads, ends, asks, asks_health, serves, push, serve, step, run, Allowed,
  IsAllowed, started,
}
use decentralized_llm_infere.Registry.Server.Streams.Serving.{
  opened_by, IsServed, connects-IsServed, ends-IsServed, tells-IsServed, serves-IsServed,
}

queue-cases :
    {A : Type 0} → (xs : List A) → (xs ≡ []) ⊎ ((x : A) × (rest : List A) × (xs ≡ x ∷ rest))
queue-cases [] = inl refl
queue-cases (x ∷ rest) = inr (x, rest, refl)

pub ends_lem :
    {F : Type 0}
    → (zero : F) (s : System F) (tx : ℕ) (model node : String) → get tx s.tasks ≡ some (model, node)
    → step zero (ends tx) s ≡ done (push (end model node) (record s { tasks = remove tx s.tasks }))
unfolding step
ends_lem zero s tx model node at = rw (step, at) refl

pub reads_lem :
    {F : Type 0}
    → (zero : F) (s : System F) (tx : ℕ) (model node : String) (e : ToRegistry F)
    → get tx s.tasks ≡ some (model, node)
    → step zero (reads tx e) s ≡ done (push (event model node e) s)
unfolding step
reads_lem zero s tx model node e at = rw (step, at) refl

module _ {F : Type 0} (zero : F) where
  step-IsServed :
      (a : Action F) (s : System F)
      → IsServed s
      → Allowed zero a s
      → (s' : System F) × (step zero a s ≡ done s') × IsServed s'
  unfolding step
  step-IsServed (connects tx model node) s v (fresh, other) =
      (_, refl, connects-IsServed s tx model node v fresh other)
  step-IsServed (reads tx e) s v allowed = elim (Option-cases (get tx s.tasks)) [
    | inl gone ↦ (s, rw (step, gone) refl, v)
    | inr ((model, node), at) ↦ (
      push (event model node e) s,
      reads_lem zero s tx model node e at,
      tells-IsServed s (event model node e) v (v.running tx model node at) refl,
    )
  ]
  step-IsServed (ends tx) s v allowed = elim (Option-cases (get tx s.tasks)) [
    | inl gone ↦ (s, rw (step, gone) refl, v)
    | inr ((model, node), at) ↦ (
      push (end model node) (record s { tasks = remove tx s.tasks }),
      ends_lem zero s tx model node at,
      ends-IsServed s tx model node v at,
    )
  ]
  step-IsServed (asks model tx) s v allowed =
      (_, refl, tells-IsServed s (distribution model tx) v tt refl)
  step-IsServed (asks_health tx) s v allowed = (_, refl, tells-IsServed s (health tx) v tt refl)
  step-IsServed serves s v allowed = elim (queue-cases s.queue) [
    | inl none_left ↦ (s, ap (λ q. serve zero q s) none_left, v)
    | inr (e, rest, at) ↦
        let (server, out, q, v') = serves-IsServed zero s e rest v at in
        (record s { server = server; queue = rest }, ap (λ q. serve zero q s) at ∙ rw q refl, v')
  ]

  run-IsServed :
      (as' : List (Action F)) (s : System F)
      → IsServed s
      → IsAllowed zero as' s
      → (s' : System F) × (run zero as' s ≡ done s') × IsServed s'
  unfolding run
  run-IsServed [] s v allowed = (s, refl, v)
  run-IsServed (a ∷ as') s v allowed =
      let (s1, e, v1) = step-IsServed a s v allowed.0 in
      let (s', e', v') = run-IsServed as' s1 v1 (allowed.1 s1 e) in (s', rw (e, e'), v')

  started-IsServed : IsServed {F = F} started
  unfolding started new get contains_key
  started-IsServed = record {
    synced = new-IsSynced;
    orderly = tt;
    running = λ tx model node h. absurd (ground (arith, h));
    heard = λ model node h. absurd (ground (arith, h));
    alone = λ tx tx' model node h h'. absurd (ground (arith, h));
  }

  -- The main loop takes all the events that wait.
  unfoldable pub drain : List (StreamEvent F) → List (Action F)
  drain [] = []
  drain (e ∷ es) = serves ∷ drain es

  drained :
      (es : List (StreamEvent F)) (s : System F)
      → IsServed s
      → s.queue ≡ es
      → (s' : System F) × (run zero (drain es) s ≡ done s')
        × (s'.queue ≡ [])
        × (s'.tasks ≡ s.tasks)
        × IsServed s'
  unfolding drain run step
  drained [] s v at = (s, refl, at, refl, v)
  drained (e ∷ es) s v at =
      let (server, out, q, v1) = serves-IsServed zero s e es v at in
      let s1 : System F = record s { server = server; queue = es } in
      let (s', run', empty, same, v') = drained es s1 v1 refl in
      (
        s',
        ap (λ q'. serve zero q' s >>= λ s1. run zero (drain es) s1) at ∙ rw (q, run') refl,
        empty,
        same,
        v',
      )

  -- Let every web socket get a channel of its own and open under a model and node of which no task
  -- runs. Any history of a registry that has just started, in which web sockets open, their tasks
  -- read messages and end, clients ask and the main loop takes events, in any order, runs without a
  -- panic. Once the main loop has then taken the events that wait, the nodes of its sessions are
  -- those with a stream, and these are exactly the models and nodes of the tasks that run.
  pub run-started_lists :
      (as' : List (Action F))
      → IsAllowed zero as' started
      → (s : System F) × (s' : System F) × (run zero as' started ≡ done s)
        × (run zero (drain s.queue) s ≡ done s')
        × (s'.queue ≡ [])
        × (s'.tasks ≡ s.tasks)
        × IsSynced s'.server
        × ((model node : String)
            → live s'.server model node ≡ true ↔ ((tx : ℕ) × (get tx s.tasks ≡ some (model, node))))
  run-started_lists as' allowed =
      let (s, e, v) = run-IsServed as' started started-IsServed allowed in
      let (s', e', empty, same, v') = drained s.queue s v refl in
      let o = live s'.server in
      (
        s,
        s',
        e,
        e',
        empty,
        same,
        v'.synced,
        λ model node. (
          λ listed.
              let (tx, at) =
                v'.heard model node (ap (λ q. opened_by o q model node) empty ∙ listed) in
              (tx, sym (ap (get tx) same) ∙ at),
          λ task.
              sym (ap (λ q. opened_by o q model node) empty)
              ∙ v'.running task.0 model node (ap (get task.0) same ∙ task.1),
        ),
      )
