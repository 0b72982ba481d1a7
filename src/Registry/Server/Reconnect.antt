-- ===== src/Registry/Server/Reconnect.antt =====
-- Histories of the main loop of crates/registry/src/server/mod.rs: those of connections that are
-- each opened once.
use decentralized_llm_infere.Base.{
  ℕ, ◌≡◌, refl, ◌∙◌, String, Bool, true, false, List, [], ◌∷◌, ◌++◌, arith, done, panicked, HashMap,
  get, insert, remove, contains_key, string_key, pair_key, contains_key-remove,
}
use decentralized_llm_infere.Protocol.Registry.{ToRegistry}
use decentralized_llm_infere.Registry.Sessions.{SessionManager, on_end, on_event}
use decentralized_llm_infere.Registry.Sessions.Events.{needs_node, on_event_panics_iff}
use decentralized_llm_infere.Registry.Server.{
  StreamEvent, start, event, end, distribution, health, Sent, RegistryServer, entry, new, run,
}
use decentralized_llm_infere.Registry.Server.Sync.{
  live, IsSynced, override, recv-Follows, new-IsSynced, entry-insert, Allowed, live_after,
}

module _ {F : Type 0} where
  -- The connections that a history has open.
  abbrev pub opened : (String → String → Bool) → StreamEvent F → String → String → Bool
  opened o (start m n tx) model node = override m n true model node (o model node)
  opened o (event m n e) model node = o model node
  opened o (end m n) model node = override m n false model node (o model node)
  opened o (distribution m tx) model node = o model node
  opened o (health tx) model node = o model node

  abbrev pub Sends : (String → String → Bool) → StreamEvent F → Type 0
  Sends o (start m n tx) = Unit
  Sends o (event m n e) = o m n ≡ true
  Sends o (end m n) = Unit
  Sends o (distribution m tx) = Unit
  Sends o (health tx) = Unit

  -- Every message stands between a start of its connection and the next end of one of the same
  -- model and node.
  abbrev pub IsOrderly : (String → String → Bool) → List (StreamEvent F) → Type 0
  IsOrderly o [] = Unit
  IsOrderly o (e ∷ es) = Sends o e × IsOrderly (opened o e) es

  pub Allowed-Sends :
      (s : RegistryServer F) (o : String → String → Bool) (e : StreamEvent F)
      → ((model node : String) → live s model node ≡ o model node)
      → Sends o e
      → Allowed s e
  Allowed-Sends s o (start m n tx) same ok = tt
  Allowed-Sends s o (event m n e) same ok = same m n ∙ ok
  Allowed-Sends s o (end m n) same ok = tt
  Allowed-Sends s o (distribution m tx) same ok = tt
  Allowed-Sends s o (health tx) same ok = tt

  pub live_after-opened :
      (s : RegistryServer F) (o : String → String → Bool) (e : StreamEvent F)
      → ((model node : String) → live s model node ≡ o model node)
      → (model node : String) → live_after s e model node ≡ opened o e model node
  live_after-opened s o (start m n tx) same model node = rw (same model node)
  live_after-opened s o (event m n e) same model node = same model node
  live_after-opened s o (end m n) same model node = rw (same model node)
  live_after-opened s o (distribution m tx) same model node = same model node
  live_after-opened s o (health tx) same model node = same model node

  run_total :
      (zero : F) (s : RegistryServer F) (o : String → String → Bool) (es : List (StreamEvent F))
      → IsSynced s
      → ((model node : String) → live s model node ≡ o model node)
      → IsOrderly o es
      → (s' : RegistryServer F) × (out : List (Sent F)) × (run zero s es ≡ done (s', out))
        × IsSynced s'
  unfolding run
  run_total zero s o [] v same ok = (s, [], refl, v)
  run_total zero s o (e ∷ es) v same ok =
      let (s', out, q, f) = recv-Follows zero s e v (Allowed-Sends s o e same ok.0) in
      let (s'', out', q', v') =
        run_total zero s' (opened o e) es f.synced
          (λ model node. f.alive model node ∙ live_after-opened s o e same model node) ok.1 in
      (s'', out ++ out', rw (q, q'), v')

  -- A registry that has just started handles every history in which each message stands between
  -- a start of its connection and the next end for the same model and node, without a panic, and
  -- its sessions list exactly the open connections at the end.
  run-new_total :
      (zero : F) (es : List (StreamEvent F))
      → IsOrderly (λ model node. false) es
      → (s : RegistryServer F) × (out : List (Sent F)) × (run zero new es ≡ done (s, out))
        × IsSynced s
  unfolding new contains_key get
  run-new_total zero es ok =
      run_total zero new (λ model node. false) es new-IsSynced (λ model node. refl) ok

  pub entry-insert_self :
      (m : String) (x : SessionManager F) (s : RegistryServer F)
      (streams : HashMap (String × String) ℕ)
      → entry m (record { models = insert m x s.models; streams_tx = streams }) ≡ x
  entry-insert_self m x s streams = entry-insert m m x s streams ∙ ground arith

  pub ended_panics :
      (s : RegistryServer F) (model node : String) (x : SessionManager F)
      (streams : HashMap (String × String) ℕ) (e : ToRegistry F)
      → needs_node e ≡ true
      → on_event node e (
          entry model
            (record { models = insert model (on_end node x) s.models; streams_tx = streams }))
        ≡ panicked
  unfolding on_end
  ended_panics s model node x streams e needs =
      rw (entry-insert_self model (record x { nodes = remove node x.nodes }) s streams) (
        (on_event_panics_iff node e _).1
          (contains_key-remove node node x.nodes ∙ ground arith, needs))
