-- ===== src/Registry/Server/Sync.antt =====
-- The main loop of crates/registry/src/server/mod.rs keeps its streams and its sessions in step,
-- and then does not panic.
use decentralized_llm_infere.Base.{
  ℕ, ◌≡◌, refl, ◌∙◌, inl, inr, String, Bool, true, false, List, [], ◌∷◌, arith, ite, done, HashMap,
  get, insert, remove, contains_key, string_dec, string_key, pair_key, ite-pair_dec,
  contains_key-insert, contains_key-remove, get-insert, Option-cases, Outcome-cases,
}
use decentralized_llm_infere.Protocol.Registry.{ToRegistry}
use decentralized_llm_infere.Registry.Sessions.{SessionManager, empty, on_start, on_event, on_end}
use decentralized_llm_infere.Registry.Sessions.Distribution.{get_distribution_lem}
use decentralized_llm_infere.Registry.Sessions.Events.{on_event_panics_iff, on_event-Queued}
use decentralized_llm_infere.Registry.Server.{
  StreamEvent, start, event, end, distribution, health, Sent, to_distribution, RegistryServer,
  entry, deliver, recv, new,
}

-- A table of pairs of names with one entry overridden.
abbrev pub override : String → String → Bool → String → String → Bool → Bool
override m n b model node old = ite (string_dec model m) (ite (string_dec node n) b old) old

live-insert :
    (m n model node : String) (tx : ℕ) (streams : HashMap (String × String) ℕ)
    → contains_key (model, node) (insert (m, n) tx streams)
      ≡ override m n true model node (contains_key (model, node) streams)
live-insert m n model node tx streams =
    contains_key-insert (m, n) (model, node) tx streams
    ∙ ite-pair_dec string_key string_key model m node n true _

live-remove :
    (m n model node : String) (streams : HashMap (String × String) ℕ)
    → contains_key (model, node) (remove (m, n) streams)
      ≡ override m n false model node (contains_key (model, node) streams)
live-remove m n model node streams =
    contains_key-remove (m, n) (model, node) streams
    ∙ ite-pair_dec string_key string_key model m node n false _

module _ {F : Type 0} where
  -- A worker's connection has a stream.
  abbrev pub live : RegistryServer F → String → String → Bool
  live s model node = contains_key (model, node) s.streams_tx

  -- The model's session manager lists the node.
  abbrev pub listed : RegistryServer F → String → String → Bool
  listed s model node = contains_key node (entry model s).nodes

  pub record IsSynced (s : RegistryServer F) : Type 0 where
    pub same : (model node : String) → listed s model node ≡ live s model node

  -- What an event may assume: the connection that sends a message is open.
  abbrev pub Allowed : RegistryServer F → StreamEvent F → Type 0
  Allowed s (start model node tx) = Unit
  Allowed s (event model node e) = live s model node ≡ true
  Allowed s (end model node) = Unit
  Allowed s (distribution model tx) = Unit
  Allowed s (health tx) = Unit

  -- Which connections are open after an event.
  abbrev pub live_after : RegistryServer F → StreamEvent F → String → String → Bool
  live_after s (start m n tx) model node = override m n true model node (live s model node)
  live_after s (event m n e) model node = live s model node
  live_after s (end m n) model node = override m n false model node (live s model node)
  live_after s (distribution m tx) model node = live s model node
  live_after s (health tx) model node = live s model node

  pub entry-insert :
      (m model : String) (x : SessionManager F) (s : RegistryServer F)
      (streams : HashMap (String × String) ℕ)
      → entry model (record { models = insert m x s.models; streams_tx = streams })
        ≡ ite (string_dec model m) x (entry model s)
  unfolding entry
  entry-insert m model x s streams = ground (arith, get-insert m model x s.models)

  -- A change of one model's nodes, together with the streams, keeps the two in step.
  IsSynced-override :
      (s : RegistryServer F) (m n : String) (b : Bool) (x : SessionManager F)
      (streams : HashMap (String × String) ℕ)
      → IsSynced s
      → ((node : String) → contains_key node x.nodes ≡ ite (string_dec node n) b (listed s m node))
      → ((model node : String)
          → contains_key (model, node) streams ≡ override m n b model node (live s model node))
      → IsSynced (record { models = insert m x s.models; streams_tx = streams })
  IsSynced-override s m n b x streams v nodes alive = record {
    same = λ model node.
        rw (entry-insert m model x s streams, alive model node)
          (elim (string_dec model m)
            as (λ d.
              contains_key node (ite d x (entry model s)).nodes
              ≡ ite d (ite (string_dec node n) b (live s model node)) (live s model node)) [
                | yes p ↦ rw (p, ← v.same m node) (nodes node)
                | no p ↦ v.same model node
              ]);
  }

  -- Which connections a server has open, and that its sessions say the same.
  pub record Follows (s' s : RegistryServer F) (e : StreamEvent F) : Type 0 where
    pub synced : IsSynced s'
    pub alive : (model node : String) → live s' model node ≡ live_after s e model node

  Handles : F → RegistryServer F → StreamEvent F → Type 0
  Handles zero s e =
      (s' : RegistryServer F) × (out : List (Sent F)) × (recv zero s e ≡ done (s', out))
      × Follows s' s e

  start-Handles :
      (zero : F) (s : RegistryServer F) (m n : String) (tx : ℕ)
      → IsSynced s
      → Handles zero s (start m n tx)
  unfolding recv Handles on_start
  start-Handles zero s m n tx v = (
    _,
    [],
    refl,
    record {
      synced =
          IsSynced-override s m n true (on_start zero n (entry m s)) _ v
            (λ node. contains_key-insert n node _ (entry m s).nodes)
            (λ model node. live-insert m n model node tx s.streams_tx);
      alive = λ model node. live-insert m n model node tx s.streams_tx;
    },
  )

  end-Handles :
      (zero : F) (s : RegistryServer F) (m n : String) → IsSynced s → Handles zero s (end m n)
  unfolding recv Handles on_end
  end-Handles zero s m n v = (
    _,
    [],
    refl,
    record {
      synced =
          IsSynced-override s m n false (on_end n (entry m s)) _ v
            (λ node. contains_key-remove n node (entry m s).nodes)
            (λ model node. live-remove m n model node s.streams_tx);
      alive = λ model node. live-remove m n model node s.streams_tx;
    },
  )

  -- A change of one model that lists the same nodes.
  IsSynced-entry :
      (s : RegistryServer F) (m : String) (x : SessionManager F)
      → IsSynced s
      → ((node : String) → contains_key node x.nodes ≡ listed s m node)
      → IsSynced (record s { models = insert m x s.models })
  IsSynced-entry s m x v nodes = record {
    same = λ model node.
        rw (entry-insert m model x s s.streams_tx)
          (elim (string_dec model m)
            as (λ d. contains_key node (ite d x (entry model s)).nodes ≡ live s model node) [
              | yes p ↦ rw (p, ← v.same m node) (nodes node)
              | no p ↦ v.same model node
            ]);
  }

  event-Handles :
      (zero : F) (s : RegistryServer F) (m n : String) (e : ToRegistry F)
      → IsSynced s
      → live s m n ≡ true
      → Handles zero s (event m n e)
  unfolding recv Handles
  event-Handles zero s m n e v open_ = elim (Outcome-cases (on_event n e (entry m s))) [
    | inl q ↦
        let unknown = (on_event_panics_iff n e (entry m s)).0 q in
        let known = v.same m n in absurd (cc)
    | inr (x, q) ↦ (
      _,
      deliver s.streams_tx m x.events,
      rw q,
      record {
        synced =
            IsSynced-entry s m (record x { events = [] }) v (on_event-Queued n e (entry m s) q).0;
        alive = λ model node. refl;
      },
    )
  ]

  distribution-Handles :
      (zero : F) (s : RegistryServer F) (m : String) (tx : ℕ)
      → IsSynced s
      → Handles zero s (distribution m tx)
  unfolding recv Handles
  distribution-Handles zero s m tx v = elim (Option-cases (get m s.models)) [
    | inl e ↦
        (s, to_distribution tx [] ∷ [], rw e, record { synced = v; alive = λ model node. refl })
    | inr (x, e) ↦
        let (counts, q, _, _) = get_distribution_lem x in
        (
          s,
          to_distribution tx counts ∷ [],
          rw (e, q),
          record { synced = v; alive = λ model node. refl },
        )
  ]

  -- While the streams and the sessions agree, the main loop handles every event without a panic,
  -- provided that a message comes from an open connection; they agree afterwards, and the open
  -- connections are those from before, but for the one that an event opens or closes.
  pub recv-Follows :
      (zero : F) (s : RegistryServer F) (e : StreamEvent F)
      → IsSynced s
      → Allowed s e
      → (s' : RegistryServer F) × (out : List (Sent F)) × (recv zero s e ≡ done (s', out))
        × Follows s' s e
  unfolding Handles
  recv-Follows zero s (start m n tx) v ok = start-Handles zero s m n tx v
  recv-Follows zero s (event m n e) v ok = event-Handles zero s m n e v ok
  recv-Follows zero s (end m n) v ok = end-Handles zero s m n v
  recv-Follows zero s (distribution m tx) v ok = distribution-Handles zero s m tx v
  recv-Follows zero s (health tx) v ok =
      unfold recv in (s, _, refl, record { synced = v; alive = λ model node. refl })

  pub new-IsSynced : IsSynced (new {F = F})
  unfolding new entry empty get contains_key
  new-IsSynced = record { same = λ model node. refl }
