-- ===== src/Registry/Sessions/Events.antt =====
-- on_event of crates/registry/src/server/session_manager.rs: when it panics, what it changes, and
-- whom its answers name.
use decentralized_llm_infere.Base.{
  ◌≡◌, ◌↔◌, refl, ap, inl, inr, String, Bool, true, false, some, List, [], ◌∷◌, ◌++◌, arith, ite,
  done, panicked, HashMap, get, insert, keys, contains_key, string_dec, string_key, Bool-cases,
  Option-cases, get-insert, if_pos, if_neg, if◌then◌else◌,
}
use mathlib.Core.List.{append-nil}
use decentralized_llm_infere.Protocol.Registry.{ToRegistry, ToWorker}
use decentralized_llm_infere.Registry.Sessions.{NodeInfo, SessionManager, others, on_event}

-- The events that `on_event` answers with `expect("Should have node")`.
abbrev pub needs_node : {F : Type 0} → ToRegistry F → Bool
needs_node (ToRegistry.update from to) = true
needs_node ToRegistry.neighbours = false
needs_node (ToRegistry.relay dest relayed) = false
needs_node (ToRegistry.stats stats) = true

unfoldable pub elem : String → List String → Bool
elem k [] = false
elem k (n ∷ ns) = ite (string_dec k n) true (elem k ns)

-- The list of neighbours in an answer holds every registered node but the one that asks, and no
-- other.
elem-others :
    {F : Type 0} (k node : String) (m : HashMap String (NodeInfo F))
    → elem k (others node (keys m)) ≡ ite (string_dec k node) false (contains_key k m)
unfolding elem others contains_key get
elem-others k node [] = ground arith
elem-others {F} k node ((j, v) ∷ m) = ground (arith, elem-others {F = F} k node m)

module _ {F : Type 0} where
  contains_key-insert :
      (k j : String) (v w : NodeInfo F) (m : HashMap String (NodeInfo F))
      → get k m ≡ some w
      → contains_key j (insert k v m) ≡ contains_key j m
  unfolding contains_key
  contains_key-insert k j v w m h = ground (arith, get-insert k j v m)

  -- The registry panics on an event exactly when the event is an update or stats and its node is
  -- not registered.
  pub on_event_panics_iff :
      (node : String) (event : ToRegistry F) (s : SessionManager F)
      → (on_event node event s ≡ panicked)
        ↔ ((contains_key node s.nodes ≡ false) × (needs_node event ≡ true))
  unfolding on_event contains_key
  on_event_panics_iff node (ToRegistry.update from to) s = (λ e. ground arith, λ e. ground arith)
  on_event_panics_iff node ToRegistry.neighbours s = (λ e. cc, λ e. absurd (ground arith))
  on_event_panics_iff node (ToRegistry.relay dest relayed) s =
      (λ e. ground arith, λ e. absurd (ground arith))
  on_event_panics_iff node (ToRegistry.stats stats) s = (λ e. ground arith, λ e. ground arith)

  -- The names are those of the registered nodes other than one.
  abbrev pub NamesOthers : SessionManager F → String → List String → Type 0
  NamesOthers s node names =
      (k : String) → elem k names ≡ ite (string_dec k node) false (contains_key k s.nodes)

  -- What one event may put into the queue.
  abbrev pub Queued : SessionManager F → String → ToRegistry F → List (String × ToWorker) → Type 0
  Queued s node (ToRegistry.update from to) out =
      (names : List String) × NamesOthers s node names × (out ≡ (node, ToWorker.update names) ∷ [])
  Queued s node ToRegistry.neighbours out =
      (names : List String) × NamesOthers s node names
      × (out ≡ (node, ToWorker.neighbours names) ∷ [])
  Queued s node (ToRegistry.relay dest relayed) out =
      out ≡ (if contains_key dest s.nodes then (dest, ToWorker.relay node relayed) ∷ [] else [])
  Queued s node (ToRegistry.stats stats) out = out ≡ []

  keys-insert :
      (k : String) (v w : NodeInfo F) (m : HashMap String (NodeInfo F))
      → get k m ≡ some w
      → keys (insert k v m) ≡ keys m
  unfolding get insert
  keys-insert k v w [] h = absurd (cc)
  keys-insert k v w ((j, u) ∷ m) h = elim (string_dec k j) [
    | yes p ↦ rw (if_pos _ p) (ap (λ x. x ∷ keys m) p)
    | no p ↦ rw (if_neg _ p) (ap (λ x. j ∷ x) (keys-insert k v w m (rw (if_neg _ p) at h)))
  ]

  -- An event that does not panic registers and forgets no node, and puts at the end of the queue
  -- what it asks for: to its own node a list that names every other registered node and nobody else,
  -- where it announces layers or asks for neighbours; the relayed data to its destination, if that is
  -- registered; and nothing where it has stats.
  pub on_event-Queued :
      (node : String) (event : ToRegistry F) (s : SessionManager F) {s' : SessionManager F}
      → on_event node event s ≡ done s'
      → ((k : String) → contains_key k s'.nodes ≡ contains_key k s.nodes)
        × ((out : List (String × ToWorker)) × Queued s node event out
            × (s'.events ≡ s.events ++ out))
  unfolding on_event
  on_event-Queued node (ToRegistry.update from to) s h = elim (Option-cases (get node s.nodes)) [
    | inl e ↦ absurd (ground arith)
    | inr (info, e) ↦
        let updated : NodeInfo F = record info {
          layers = some (record { start = from; end = to });
        } in
        (
          λ k. ground (arith, contains_key-insert node k updated info s.nodes e),
          (
            _,
            (others node (keys s.nodes), λ k. elem-others k node s.nodes, refl),
            ground (arith, keys-insert node updated info s.nodes e),
          ),
        )
  ]
  on_event-Queued node ToRegistry.neighbours s h = (
    λ k. ground arith,
    (_, (others node (keys s.nodes), λ k. elem-others k node s.nodes, refl), ground arith),
  )
  on_event-Queued node (ToRegistry.relay dest relayed) s h =
      elim (Bool-cases (contains_key dest s.nodes)) [
        | inl e ↦ (λ k. ground arith, (_, refl, rw e (ground arith)))
        | inr e ↦ (λ k. ground arith, (_, refl, rw e (ground (arith, append-nil s.events))))
      ]
  on_event-Queued node (ToRegistry.stats stats) s h = elim (Option-cases (get node s.nodes)) [
    | inl e ↦ absurd (ground arith)
    | inr (info, e) ↦
        let updated : NodeInfo F = record info { stats = stats } in
        (
          λ k. ground (arith, contains_key-insert node k updated info s.nodes e),
          ([], refl, ground (arith, append-nil s.events)),
        )
  ]
