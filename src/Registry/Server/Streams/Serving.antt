-- ===== src/Registry/Server/Streams/Serving.antt =====
-- What one action of the tasks of the web sockets, or one event that the main loop takes, of
-- crates/registry/src/server/mod.rs keeps of the two.
use decentralized_llm_infere.Base.{
  ℕ, ◌≡◌, ◌≢◌, refl, sym, subst, ap, ◌∙◌, inl, inr, String, Bool, true, false, none, some, List, [],
  ◌∷◌, ◌++◌, arith, done, HashMap, get, insert, remove, string_key, nat_key, ℕ_discrete, get-remove,
}
use mathlib.Core.Path.{fun_ext}
use decentralized_llm_infere.Registry.Server.{StreamEvent, start, end, Sent, RegistryServer, recv}
use decentralized_llm_infere.Registry.Server.Sync.{live, IsSynced, override, recv-Follows}
use decentralized_llm_infere.Registry.Server.Reconnect.{
  opened, Sends, IsOrderly, Allowed-Sends, live_after-opened,
}
use decentralized_llm_infere.Registry.Server.Streams.{System, push, run}
use decentralized_llm_infere.Registry.Server.Streams.Tasks.{
  override_same, override-true, override_other, override_inv, named, before, added, kept, apart,
}

module _ {F : Type 0} where
  -- The connections that are open behind some events.
  abbrev pub opened_by : (String → String → Bool) → List (StreamEvent F) → String → String → Bool
  opened_by o [] = o
  opened_by o (e ∷ es) = opened_by (opened o e) es

  opened_by-append :
      (o : String → String → Bool) (es : List (StreamEvent F)) (e : StreamEvent F)
      → opened_by o (es ++ e ∷ []) ≡ opened (opened_by o es) e
  opened_by-append o [] e = refl
  opened_by-append o (d ∷ es) e = opened_by-append (opened o d) es e

  IsOrderly-append :
      (o : String → String → Bool) (es : List (StreamEvent F)) (e : StreamEvent F)
      → IsOrderly o es
      → Sends (opened_by o es) e
      → IsOrderly o (es ++ e ∷ [])
  IsOrderly-append o [] e h sends = (sends, tt)
  IsOrderly-append o (d ∷ es) e h sends = (h.0, IsOrderly-append (opened o d) es e h.1 sends)

  -- The queue can be served, and every task that runs is open behind it, under a name of its own.
  pub record IsServed (s : System F) : Type 0 where
    pub synced : IsSynced s.server
    pub orderly : IsOrderly (live s.server) s.queue
    pub running :
        (tx : ℕ) (model node : String)
        → get tx s.tasks ≡ some (model, node)
        → opened_by (live s.server) s.queue model node ≡ true
    pub heard :
        (model node : String)
        → opened_by (live s.server) s.queue model node ≡ true
        → (tx : ℕ) × (get tx s.tasks ≡ some (model, node))
    pub alone :
        (tx tx' : ℕ) (model node : String)
        → get tx s.tasks ≡ some (model, node)
        → get tx' s.tasks ≡ some (model, node)
        → tx ≡ tx'

  -- An event of a task that changes which connections are open, or of none.
  push-IsServed :
      (s : System F) (e : StreamEvent F) (tasks : HashMap ℕ (String × String))
      → IsServed s
      → Sends (opened_by (live s.server) s.queue) e
      → ((tx : ℕ) (model node : String)
          → get tx tasks ≡ some (model, node)
          → opened (opened_by (live s.server) s.queue) e model node ≡ true)
      → ((model node : String)
          → opened (opened_by (live s.server) s.queue) e model node ≡ true
          → (tx : ℕ) × (get tx tasks ≡ some (model, node)))
      → ((tx tx' : ℕ) (model node : String)
          → get tx tasks ≡ some (model, node)
          → get tx' tasks ≡ some (model, node)
          → tx ≡ tx')
      → IsServed (push e (record s { tasks = tasks }))
  push-IsServed s e tasks v sends running heard alone = record {
    synced = v.synced;
    orderly = IsOrderly-append (live s.server) s.queue e v.orderly sends;
    running = λ tx model node h.
        ap (λ o. o model node) (opened_by-append (live s.server) s.queue e)
        ∙ running tx model node h;
    heard = λ model node h.
        heard model node
          (sym (ap (λ o. o model node) (opened_by-append (live s.server) s.queue e)) ∙ h);
    alone = alone;
  }

  pub connects-IsServed :
      (s : System F) (tx : ℕ) (m n : String)
      → IsServed s
      → get tx s.tasks ≡ none
      → ((tx' : ℕ) → get tx' s.tasks ≢ some (m, n))
      → IsServed (push (start m n tx) (record s { tasks = insert tx (m, n) s.tasks }))
  connects-IsServed s tx m n v fresh other =
      push-IsServed s (start m n tx) (insert tx (m, n) s.tasks) v tt
        (λ t model node h. elim (ℕ_discrete t tx) [
          | yes e ↦
              let p = named tx t m n model node s.tasks e h in
              subst
                (λ (q : String × String).
                  override m n true q.0 q.1 (opened_by (live s.server) s.queue q.0 q.1) ≡ true)
                p (override_same m n true (opened_by (live s.server) s.queue m n))
          | no e ↦
              let h' = v.running t model node (before tx t m n s.tasks e h) in
              ap (override m n true model node) h' ∙ override-true m n model node
        ])
        (λ model node h.
          elim (override_inv m n true model node (opened_by (live s.server) s.queue model node) h) [
            | inl (e, e', b) ↦ (tx, rw (e, e') (added tx (m, n) s.tasks))
            | inr (e, old) ↦
                let (t, at) = v.heard model node old in
                (t, kept tx t (m, n) (model, node) s.tasks fresh at)
          ])
        (λ t t' model node h h'. elim (ℕ_discrete t tx) [
          | yes e ↦ elim (ℕ_discrete t' tx) [
            | yes e' ↦ e ∙ sym e'
            | no e' ↦
                let p = named tx t m n model node s.tasks e h in
                absurd (other t' (before tx t' m n s.tasks e' h' ∙ ap some (sym p)))
          ]
          | no e ↦ elim (ℕ_discrete t' tx) [
            | yes e' ↦
                let p = named tx t' m n model node s.tasks e' h' in
                absurd (other t (before tx t m n s.tasks e h ∙ ap some (sym p)))
            | no e' ↦
                v.alone t t' model node (before tx t m n s.tasks e h)
                  (before tx t' m n s.tasks e' h')
          ]
        ])

  pub ends-IsServed :
      (s : System F) (tx : ℕ) (m n : String)
      → IsServed s
      → get tx s.tasks ≡ some (m, n)
      → IsServed (push (end m n) (record s { tasks = remove tx s.tasks }))
  ends-IsServed s tx m n v at =
      push-IsServed s (end m n) (remove tx s.tasks) v tt
        (λ t model node h.
          let h' : get t s.tasks ≡ some (model, node) = ground (arith, get-remove tx t s.tasks) in
          let open_ = v.running t model node h' in
          override_other m n false model node (opened_by (live s.server) s.queue model node)
            (λ e e'.
              let renamed : get t s.tasks ≡ some (m, n) = rw (e, e') at h' in
              let same : tx ≡ t = v.alone tx t m n at renamed in
              absurd (ground (arith, get-remove tx t s.tasks, same, h)))
          ∙ open_)
        (λ model node h.
          elim (override_inv m n false model node (opened_by (live s.server) s.queue model node)
            h) [
              | inl (e, e', b) ↦ absurd (ground arith)
              | inr (e, old) ↦
                  let (t, here) = v.heard model node old in
                  (
                    t,
                    ground (
                      arith,
                      get-remove tx t s.tasks,
                      apart tx t m n model node s.tasks e at here,
                    ),
                  )
            ])
        (λ t t' model node h h'.
          v.alone t t' model node (ground (arith, get-remove tx t s.tasks))
            (ground (arith, get-remove tx t' s.tasks)))

  pub serves-IsServed :
      (zero : F) (s : System F) (e : StreamEvent F) (rest : List (StreamEvent F))
      → IsServed s
      → s.queue ≡ e ∷ rest
      → (server : RegistryServer F) × (out : List (Sent F)) × (recv zero s.server e
          ≡ done (server, out))
        × IsServed (record s { server = server; queue = rest })
  serves-IsServed zero s e rest v at =
      let o = live s.server in
      let orderly = subst (IsOrderly o) at v.orderly in
      let (server, out, run, f) =
        recv-Follows zero s.server e v.synced
          (Allowed-Sends s.server o e (λ m n. refl) orderly.0) in
      let same : opened o e ≡ live server =
        fun_ext
          λ m. fun_ext λ n. sym (f.alive m n ∙ live_after-opened s.server o e (λ m n. refl) m n) in
      (
        server,
        out,
        run,
        record {
          synced = f.synced;
          orderly = subst (λ p. IsOrderly p rest) same orderly.1;
          running = λ tx model node h.
              ap (λ p. opened_by p rest model node) (sym same)
              ∙ sym (ap (λ q. opened_by o q model node) at)
              ∙ v.running tx model node h;
          heard = λ model node h. v.heard model node (
              ap (λ q. opened_by o q model node) at
              ∙ ap (λ p. opened_by p rest model node) same
              ∙ h);
          alone = v.alone;
        },
      )

  -- An event that leaves the connections that are open as they are.
  pub tells-IsServed :
      (s : System F) (e : StreamEvent F)
      → IsServed s
      → Sends (opened_by (live s.server) s.queue) e
      → opened (opened_by (live s.server) s.queue) e ≡ opened_by (live s.server) s.queue
      → IsServed (push e s)
  tells-IsServed s e v sends same =
      push-IsServed s e s.tasks v sends
        (λ tx model node h. ap (λ o. o model node) same ∙ v.running tx model node h)
        (λ model node h. v.heard model node (sym (ap (λ o. o model node) same) ∙ h)) v.alone
