-- ===== src/Tests/Streams.antt =====
-- Web sockets of two workers: the theorems on crates/registry/src/server/mod.rs at concrete inputs.
use decentralized_llm_infere.Base.{
  ℕ, ◌≡◌, ◌≢◌, ◌↔◌, refl, ap, sym, ◌∙◌, subst, Bool, false, get-insert, ite, String, true, Option,
  none, some, List, [], ◌∷◌, arith, done, panicked, done-injective, HashMap, get, insert, nat_key,
  pair_key, string_key, string_dec, ℕ_discrete,
}
use decentralized_llm_infere.Protocol.Registry.{ToRegistry, no_stats}
use decentralized_llm_infere.Registry.Sessions.Events.{needs_node}
use decentralized_llm_infere.Registry.Server.{start, new}
use decentralized_llm_infere.Registry.Server.Sync.{live, IsSynced}
use decentralized_llm_infere.Registry.Server.Streams.{
  System, Action, connects, reads, ends, serves, push, started, step, run, IsAllowed,
}
use decentralized_llm_infere.Registry.Server.Streams.History.{drain, run-started_lists}
use decentralized_llm_infere.Registry.Server.Streams.Replaced.{reconnect_panics}

abbrev later : List (Action ℕ)
later = connects 2 "phi3" "b" ∷ serves ∷ reads 1 (ToRegistry.update 0 2) ∷ ends 2 ∷ []

abbrev both : List (Action ℕ)
both = connects 1 "phi3" "a" ∷ later

abbrev first : System ℕ
first =
    push (start "phi3" "a" 1)
      (record started { tasks = insert 1 ("phi3", "a") (started {F = ℕ}).tasks })

abbrev is_b : Option (String × String) → Bool
is_b none = false
is_b (some p) = ite (string_dec p.1 "b") true false

first_name : is_b (get 1 first.tasks) ≡ false
unfolding get insert started string_dec ℕ_discrete
first_name = refl

other_name : (tx : ℕ) → get tx first.tasks ≢ some ("phi3", "b")
unfolding started get
other_name tx h = elim (ℕ_discrete tx 1) [
  | yes e ↦
      let h' = sym first_name ∙ ap (λ k. is_b (get k first.tasks)) (sym e) ∙ ap is_b h in
      absurd (ground (arith, h'))
  | no e ↦ absurd (ground (arith, get-insert 1 tx ("phi3", "a") (started {F = ℕ}).tasks, h))
]

both-IsAllowed : IsAllowed 0 both started
unfolding started step get insert ℕ_discrete
both-IsAllowed = (
  (refl, λ tx h. absurd (ground (arith, h))),
  λ s e.
      subst (IsAllowed 0 later) (done-injective {a = first} e)
        ((refl, other_name), λ s' e'. (tt, λ s1 e1. (tt, λ s2 e2. (tt, λ s3 e3. tt)))),
)

run-started_lists_example :
    (s : System ℕ) × (s' : System ℕ) × (run 0 both started ≡ done s)
    × (run 0 (drain 0 s.queue) s ≡ done s')
    × (s'.queue ≡ [])
    × (s'.tasks ≡ s.tasks)
    × IsSynced s'.server
    × ((model node : String)
        → live s'.server model node ≡ true ↔ ((tx : ℕ) × (get tx s.tasks ≡ some (model, node))))
run-started_lists_example = run-started_lists 0 both both-IsAllowed

abbrev stats : ToRegistry ℕ
stats = ToRegistry.stats (no_stats 0)

abbrev old : HashMap ℕ (String × String)
old = (1, ("phi3", "a")) ∷ []

old-at : get 1 old ≡ some ("phi3", "a")
unfolding get ℕ_discrete
old-at = refl

apart : ◌≢◌ {A = ℕ} 1 2
apart e = absurd (ground arith)

stats-needs_node : needs_node stats ≡ true
stats-needs_node = refl

reconnect_panics_example :
    (s : System ℕ) × (run 0
        (connects 2 "phi3" "a" ∷ serves ∷ [])
        (record { server = new; queue = []; tasks = old })
      ≡ done s)
    × (get ("phi3", "a") s.server.streams_tx ≡ some 2)
    × (get 2 s.tasks ≡ some ("phi3", "a"))
    × (run 0 (ends 1 ∷ serves ∷ reads 2 stats ∷ serves ∷ []) s ≡ panicked)
reconnect_panics_example =
    reconnect_panics 0 new old 1 2 "phi3" "a" stats old-at apart stats-needs_node
