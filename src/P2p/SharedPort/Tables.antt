-- ===== src/P2p/SharedPort/Tables.antt =====
-- The tables of SharedUdpPort in crates/p2p-network/src/shared_port.rs, and what remove_task leaves
-- of them.
use decentralized_llm_infere.Base.{
  ℕ, ◌≡◌, ◌≢◌, refl, sym, subst, ◌∙◌, Bool, true, false, none, some, List, [], ◌∷◌, ◌++◌, String,
  HashMap, get, remove, get-insert, get-remove, nat_key, string_key, arith, Option-cases, inl, inr,
  ◌==◌, if◌then◌else◌,
}
use decentralized_llm_infere.P2p.SharedPort.{
  SharedUdpPort, new, add_ufrag, remove_remotes, remove_task,
}

abbrev pub has : ℕ → List ℕ → Bool
has r [] = false
has r (x ∷ xs) = if r == x then true else has r xs

-- The two tables of user names are each other's inverse, and every remote is on the list of its
-- task, which has a user name.
pub record IsValid (p : SharedUdpPort) : Type 0 where
  pub named :
      (u : String) (t : ℕ) → get u p.task_ufrags ≡ some t → get t p.task_ufrags_reverse ≡ some u
  pub names :
      (u : String) (t : ℕ) → get t p.task_ufrags_reverse ≡ some u → get u p.task_ufrags ≡ some t
  pub listed :
      (r t : ℕ)
      → get r p.task_remotes ≡ some t
      → (rs : List ℕ) × (get t p.task_remotes_map ≡ some rs) × (has r rs ≡ true)
  pub owned :
      (r t : ℕ)
      → get r p.task_remotes ≡ some t
      → (u : String) × (get t p.task_ufrags_reverse ≡ some u)

pub new-IsValid : IsValid new
unfolding new get
new-IsValid = record {
  named = λ u t h. absurd (cc);
  names = λ u t h. absurd (cc);
  listed = λ r t h. absurd (cc);
  owned = λ r t h. absurd (cc);
}

get-remove_remotes :
    (rs : List ℕ) (r : ℕ) (m : HashMap ℕ ℕ)
    → get r (remove_remotes rs m) ≡ (if has r rs then none else get r m)
unfolding remove_remotes
get-remove_remotes [] r m = refl
get-remove_remotes (x ∷ rs) r m =
    ground (arith, get-remove_remotes rs r (remove x m), get-remove x r m)

pub has-append : (r x : ℕ) (xs : List ℕ) → has r xs ≡ true → has r (xs ++ x ∷ []) ≡ true
has-append r x [] h = absurd (cc)
has-append r x (y ∷ xs) h = ground (arith, has-append r x xs)

pub has_last : (x : ℕ) (xs : List ℕ) → has x (xs ++ x ∷ []) ≡ true
has_last x [] = ground arith
has_last x (y ∷ xs) = ground (arith, has_last x xs)

-- A task with a user name that nobody had joins.
pub add_ufrag-IsValid :
    (u : String) (t : ℕ) (p : SharedUdpPort)
    → IsValid p
    → get u p.task_ufrags ≡ none
    → get t p.task_ufrags_reverse ≡ none
    → IsValid (add_ufrag u t p)
unfolding add_ufrag
add_ufrag-IsValid u t p v no_name no_task = record {
  named = λ u' t' h. ground (
    arith,
    get-insert u u' t p.task_ufrags,
    get-insert t t' u p.task_ufrags_reverse,
    v.named u' t',
  );
  names = λ u' t' h. ground (
    arith,
    get-insert u u' t p.task_ufrags,
    get-insert t t' u p.task_ufrags_reverse,
    v.names u' t',
  );
  listed = v.listed;
  owned = λ r t' h.
      let (name, known) = v.owned r t' h in
      (name, ground (arith, get-insert t t' u p.task_ufrags_reverse));
}

-- The tables without a task and its user name.
abbrev without : ℕ → String → HashMap ℕ ℕ → HashMap ℕ (List ℕ) → SharedUdpPort → SharedUdpPort
without t u remotes lists p = record {
  task_remotes = remotes;
  task_remotes_map = lists;
  task_ufrags = remove u p.task_ufrags;
  task_ufrags_reverse = remove t p.task_ufrags_reverse;
}

without-IsValid :
    (t : ℕ) (u : String) (p : SharedUdpPort) (remotes : HashMap ℕ ℕ) (lists : HashMap ℕ (List ℕ))
    → IsValid p
    → get t p.task_ufrags_reverse ≡ some u
    → ((r t' : ℕ) → get r remotes ≡ some t' → (get r p.task_remotes ≡ some t') × (t' ≢ t))
    → ((t' : ℕ) → t' ≢ t → get t' lists ≡ get t' p.task_remotes_map)
    → IsValid (without t u remotes lists p)
without-IsValid t u p remotes lists v live fewer same = record {
  named = λ u' t' h. ground (
    arith,
    get-remove u u' p.task_ufrags,
    get-remove t t' p.task_ufrags_reverse,
    v.named u' t',
    live,
  );
  names = λ u' t' h. ground (
    arith,
    get-remove u u' p.task_ufrags,
    get-remove t t' p.task_ufrags_reverse,
    v.names u' t',
    v.names u t live,
  );
  listed = λ r t' h.
      let (old, ne) = fewer r t' h in
      let (rs, known, on) = v.listed r t' old in (rs, same t' ne ∙ known, on);
  owned = λ r t' h.
      let (old, ne) = fewer r t' h in
      let (name, known) = v.owned r t' old in
      (name, ground (arith, get-remove t t' p.task_ufrags_reverse));
}

-- What `remove_task` leaves of a live task.
abbrev pub Gone : ℕ → String → SharedUdpPort → Type 0
Gone t u q =
    IsValid q
    × ((name : String) → get name q.task_ufrags ≢ some t)
    × (get t q.task_ufrags_reverse ≡ none)
    × ((r : ℕ) → get r q.task_remotes ≢ some t)

without-Gone :
    (t : ℕ) (u : String) (p : SharedUdpPort) (remotes : HashMap ℕ ℕ) (lists : HashMap ℕ (List ℕ))
    → IsValid p
    → get t p.task_ufrags_reverse ≡ some u
    → ((r t' : ℕ) → get r remotes ≡ some t' → (get r p.task_remotes ≡ some t') × (t' ≢ t))
    → ((t' : ℕ) → t' ≢ t → get t' lists ≡ get t' p.task_remotes_map)
    → Gone t u (without t u remotes lists p)
without-Gone t u p remotes lists v live fewer same = (
  without-IsValid t u p remotes lists v live fewer same,
  λ name h. ground (arith, get-remove u name p.task_ufrags, v.named name t, live),
  ground (arith, get-remove t t p.task_ufrags_reverse),
  λ r h. (fewer r t h).1 refl,
)

pub remove_task-Gone :
    (t : ℕ) (u : String) (p : SharedUdpPort)
    → IsValid p
    → get t p.task_ufrags_reverse ≡ some u
    → Gone t u (remove_task t p).1
unfolding remove_task
remove_task-Gone t u p v live = elim (Option-cases (get t p.task_remotes_map)) [
  | inl silent ↦
      let run : (remove_task t p).1 ≡ without t u p.task_remotes p.task_remotes_map p =
        rw (remove_task, live, v.names u t live, silent) refl in
      subst (Gone t u) (sym run) (
        without-Gone t u p p.task_remotes p.task_remotes_map v live
          (λ r t' h. (h, λ e. let (rs, known, on) = v.listed r t' h in ground arith))
          (λ t' ne. refl))
  | inr (rs, heard) ↦
      let remotes = remove_remotes rs p.task_remotes in
      let lists = remove t p.task_remotes_map in
      let run : (remove_task t p).1 ≡ without t u remotes lists p =
        rw (remove_task, live, v.names u t live, heard) refl in
      subst (Gone t u) (sym run) (
        without-Gone t u p remotes lists v live
          (λ r t' h.
            let back = get-remove_remotes rs r p.task_remotes in
            let old : get r p.task_remotes ≡ some t' = ground (arith, back) in
            (old, λ e. let (rs', known, on) = v.listed r t' old in ground (arith, back)))
          (λ t' ne. ground (arith, get-remove t t' p.task_remotes_map)))
]
