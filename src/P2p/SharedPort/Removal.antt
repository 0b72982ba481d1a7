-- ===== src/P2p/SharedPort/Removal.antt =====
-- map_remote and remove_task of crates/p2p-network/src/shared_port.rs over a history: no packet goes
-- to a removed connection.
use decentralized_llm_infere.Base.{
  ℕ, ◌≡◌, ◌≢◌, refl, sym, subst, ◌∙◌, true, Option, none, some, List, [], ◌∷◌, ◌++◌, String,
  HashMap, get, insert, get-insert, get-insert_same, nat_key, string_key, arith, Option-cases, inl,
  inr,
}
use decentralized_llm_infere.P2p.SharedPort.{
  SharedUdpPort, new, add_ufrag, remove_task, push_remote, map_remote,
}
use decentralized_llm_infere.P2p.SharedPort.Tables.{
  has, has-append, has_last, IsValid, new-IsValid, add_ufrag-IsValid, remove_task-Gone,
}

get-push_remote :
    (t r t' : ℕ) (m : HashMap ℕ (List ℕ))
    → (rs : List ℕ) × (get t (push_remote t r m) ≡ some rs)
      × (has r rs ≡ true)
      × ((t' ≢ t) → get t' (push_remote t r m) ≡ get t' m)
      × ((x : ℕ) (old : List ℕ) → get t m ≡ some old → has x old ≡ true → has x rs ≡ true)
unfolding push_remote
get-push_remote t r t' m = elim (Option-cases (get t m)) [
  | inl absent ↦ (
    r ∷ [],
    rw (push_remote, absent) (get-insert_same t (r ∷ []) m),
    ground arith,
    λ ne. rw (push_remote, absent) (ground (arith, get-insert t t' (r ∷ []) m)),
    λ x old e on. absurd (ground arith),
  )
  | inr (rs, e) ↦ (
    rs ++ r ∷ [],
    rw (push_remote, e) (get-insert_same t (rs ++ r ∷ []) m),
    has_last r rs,
    λ ne. rw (push_remote, e) (ground (arith, get-insert t t' (rs ++ r ∷ []) m)),
    λ x old e' on. let same : old ≡ rs = ground arith in has-append x r rs (rw (← same) on),
  )
]

-- A new remote joins a task that has a user name.
mapped-IsValid :
    (r t : ℕ) (name : String) (p : SharedUdpPort)
    → IsValid p
    → get name p.task_ufrags ≡ some t
    → IsValid (record p {
      task_remotes = insert r t p.task_remotes;
      task_remotes_map = push_remote t r p.task_remotes_map;
    })
mapped-IsValid r t name p v known = record {
  named = v.named;
  names = v.names;
  listed = λ x t' h. elim (nat_key.dec t' t) [
    | yes same ↦
        let (rs, at, on, apart, keep) = get-push_remote t r t p.task_remotes_map in
        (
          rs,
          rw same at,
          elim (nat_key.dec x r) [
            | yes here ↦ rw here on
            | no away ↦
                let old : get x p.task_remotes ≡ some t =
                  ground (arith, get-insert r x t p.task_remotes) in
                let (ls, e, on') = v.listed x t old in keep x ls e on'
          ],
        )
    | no other ↦
        let (rs, at, on, apart, keep) = get-push_remote t r t' p.task_remotes_map in
        let old : get x p.task_remotes ≡ some t' =
          ground (arith, get-insert r x t p.task_remotes) in
        let (ls, e, on') = v.listed x t' old in (ls, apart other ∙ e, on')
  ];
  owned = λ x t' h. elim (nat_key.dec x r) [
    | yes same ↦ (name, ground (arith, get-insert r x t p.task_remotes, v.named name t))
    | no other ↦ v.owned x t' (ground (arith, get-insert r x t p.task_remotes))
  ];
}

module _ (stun_username : List ℕ → Option String) where
  map_remote-IsValid :
      (r : ℕ) (buf : List ℕ) (p : SharedUdpPort)
      → IsValid p
      → IsValid (map_remote stun_username r buf p).1
  unfolding map_remote
  map_remote-IsValid r buf p v = elim (Option-cases (get r p.task_remotes)) [
    | inr (t', e) ↦
        let run : (map_remote stun_username r buf p).1 ≡ p = rw (map_remote, e) refl in
        subst IsValid (sym run) v
    | inl e ↦ elim (Option-cases (stun_username buf)) [
      | inl e' ↦
          let run : (map_remote stun_username r buf p).1 ≡ p = rw (map_remote, e, e') refl in
          subst IsValid (sym run) v
      | inr (name, e') ↦ elim (Option-cases (get name p.task_ufrags)) [
        | inl e'' ↦
            let run : (map_remote stun_username r buf p).1 ≡ p = rw (map_remote, e, e', e'') refl in
            subst IsValid (sym run) v
        | inr (t, e'') ↦
            let mapped : SharedUdpPort = record p {
              task_remotes = insert r t p.task_remotes;
              task_remotes_map = push_remote t r p.task_remotes_map;
            } in
            let run : (map_remote stun_username r buf p).1 ≡ mapped =
              rw (map_remote, e, e', e'') refl in
            subst IsValid (sym run) (mapped-IsValid r t name p v e'')
      ]
    ]
  ]

  -- A task that owns nothing gets no packet.
  map_remote_ne :
      (r : ℕ) (buf : List ℕ) (p : SharedUdpPort) (t : ℕ)
      → ((name : String) → get name p.task_ufrags ≢ some t)
      → ((r : ℕ) → get r p.task_remotes ≢ some t)
      → (map_remote stun_username r buf p).0 ≢ some t
  unfolding map_remote
  map_remote_ne r buf p t no_name no_remote h = elim (Option-cases (get r p.task_remotes)) [
    | inr (t', e) ↦ no_remote r (ground arith)
    | inl e ↦ elim (Option-cases (stun_username buf)) [
      | inl e' ↦ ground arith
      | inr (name, e') ↦ no_name name (ground arith)
    ]
  ]

  -- What happens to a port: a connection opens under a name, a packet comes, a connection closes.
  pub data Call : Type 0 where
    opens : (ufrag : String) (task : ℕ) → Call
    packet : (remote : ℕ) (buf : List ℕ) → Call
    closes : (task : ℕ) → Call

  abbrev pub step : Call → SharedUdpPort → SharedUdpPort
  step (opens ufrag task) p = add_ufrag ufrag task p
  step (packet remote buf) p = (map_remote stun_username remote buf p).1
  step (closes task) p = (remove_task task p).1

  -- A connection that opens is new, as is its name; one that closes was open.
  abbrev pub Allowed : Call → SharedUdpPort → Type 0
  Allowed (opens ufrag task) p =
      (get ufrag p.task_ufrags ≡ none) × (get task p.task_ufrags_reverse ≡ none)
  Allowed (packet remote buf) p = Unit
  Allowed (closes task) p = (u : String) × (get task p.task_ufrags_reverse ≡ some u)

  abbrev pub run : List Call → SharedUdpPort → SharedUdpPort
  run [] p = p
  run (c ∷ cs) p = run cs (step c p)

  abbrev pub AllAllowed : List Call → SharedUdpPort → Type 0
  AllAllowed [] p = Unit
  AllAllowed (c ∷ cs) p = Allowed c p × AllAllowed cs (step c p)

  step-IsValid : (c : Call) (p : SharedUdpPort) → IsValid p → Allowed c p → IsValid (step c p)
  step-IsValid (opens u t) p v (no_name, no_task) = add_ufrag-IsValid u t p v no_name no_task
  step-IsValid (packet r buf) p v ok = map_remote-IsValid r buf p v
  step-IsValid (closes t) p v (u, live) = (remove_task-Gone t u p v live).0

  run-IsValid :
      (cs : List Call) (p : SharedUdpPort) → IsValid p → AllAllowed cs p → IsValid (run cs p)
  run-IsValid [] p v ok = v
  run-IsValid (c ∷ cs) p v ok = run-IsValid cs (step c p) (step-IsValid c p v ok.0) ok.1

  -- After any history of a new port in which connections and their names are new when they open,
  -- and open when they close: once an open connection is removed, no packet is mapped to it,
  -- whatever its sender and its contents, and the port is as valid as before.
  pub remove_task-map_remote :
      (cs : List Call) (task : ℕ) (u : String) (remote : ℕ) (buf : List ℕ)
      → AllAllowed cs new
      → get task (run cs new).task_ufrags_reverse ≡ some u
      → IsValid (remove_task task (run cs new)).1
        × ((map_remote stun_username remote buf (remove_task task (run cs new)).1).0 ≢ some task)
  remove_task-map_remote cs task u remote buf ok live =
      let v = run-IsValid cs new new-IsValid ok in
      let (valid, no_name, no_task, no_remote) = remove_task-Gone task u (run cs new) v live in
      (valid, map_remote_ne remote buf (remove_task task (run cs new)).1 task no_name no_remote)
