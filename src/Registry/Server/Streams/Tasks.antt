-- ===== src/Registry/Server/Streams/Tasks.antt =====
-- Lemmas on the tasks of the web sockets of crates/registry/src/server/mod.rs: the map of those that
-- run, by channel, and the table of the connections that are open.
use decentralized_llm_infere.Base.{
  ℕ, ◌≡◌, ◌≢◌, sym, subst, ap, ◌∙◌, inl, inr, ◌⊎◌, String, Bool, true, none, some, arith, if_pos,
  if_neg, HashMap, get, insert, string_dec, string_key, nat_key, ℕ_discrete, get-insert,
}
use mathlib.Core.Option.{some-injective}
use decentralized_llm_infere.Registry.Server.Sync.{override}

pub override_same : (m n : String) (b old : Bool) → override m n b m n old ≡ b
override_same m n b old = ground arith

pub override-true : (m n model node : String) → override m n true model node true ≡ true
override-true m n model node = ground arith

pub override_other :
    (m n : String) (b : Bool) (model node : String) (old : Bool)
    → (model ≡ m → node ≢ n)
    → override m n b model node old ≡ old
override_other m n b model node old h = elim (string_dec model m) [
  | no e ↦ if_neg (string_dec model m) e _ _
  | yes e ↦ elim (string_dec node n) [
    | no e' ↦ if_pos (string_dec model m) e _ _ ∙ if_neg (string_dec node n) e' _ _
    | yes e' ↦ absurd (h e e')
  ]
]

pub override_inv :
    (m n : String) (b : Bool) (model node : String) (old : Bool)
    → override m n b model node old ≡ true
    → ((model ≡ m) × (node ≡ n) × (b ≡ true)) ⊎ ((model ≡ m → node ≢ n) × (old ≡ true))
override_inv m n b model node old h = elim (string_dec model m) [
  | no e ↦ inr (λ e'. absurd (e e'), ground arith)
  | yes e ↦ elim (string_dec node n) [
    | no e' ↦ inr (λ e''. e', ground arith)
    | yes e' ↦ inl (e, e', ground arith)
  ]
]

pub named :
    (tx t : ℕ) (m n model node : String) (tasks : HashMap ℕ (String × String))
    → t ≡ tx
    → get t (insert tx (m, n) tasks) ≡ some (model, node)
    → ◌≡◌ {A = String × String} (m, n) (model, node)
named tx t m n model node tasks e h =
    some-injective (m, n) (model, node) (ground (arith, get-insert tx t (m, n) tasks))

pub before :
    (tx t : ℕ) (m n : String) {p : String × String} (tasks : HashMap ℕ (String × String))
    → t ≢ tx
    → get t (insert tx (m, n) tasks) ≡ some p
    → get t tasks ≡ some p
before tx t m n tasks e h = ground (arith, get-insert tx t (m, n) tasks)

pub added :
    (tx : ℕ) (p : String × String) (tasks : HashMap ℕ (String × String))
    → get tx (insert tx p tasks) ≡ some p
added tx p tasks = ground (arith, get-insert tx tx p tasks)

pub kept :
    (tx t : ℕ) (p q : String × String) (tasks : HashMap ℕ (String × String))
    → get tx tasks ≡ none
    → get t tasks ≡ some q
    → get t (insert tx p tasks) ≡ some q
kept tx t p q tasks fresh at = elim (ℕ_discrete t tx) [
  | yes e ↦ absurd (ground (arith, at, ap (λ k. get k tasks) e, fresh))
  | no e ↦ ground (arith, get-insert tx t p tasks)
]

pub apart :
    (tx t : ℕ) (m n model node : String) (tasks : HashMap ℕ (String × String))
    → (model ≡ m → node ≢ n)
    → get tx tasks ≡ some (m, n)
    → get t tasks ≡ some (model, node)
    → t ≢ tx
apart tx t m n model node tasks other at here e =
    let here' : get tx tasks ≡ some (model, node) =
      subst (λ k. get k tasks ≡ some (model, node)) e here in
    let p = some-injective (model, node) (m, n) (sym here' ∙ at) in
    absurd (other (ap (λ (q : String × String). q.0) p) (ap (λ (q : String × String). q.1) p))
