-- ===== src/Control/Workers/Restart.antt =====
-- A model that is stopped and started again, while its old task is not over yet.
use decentralized_llm_infere.Base.{
  ℕ, suc, ◌≡◌, ◌≢◌, refl, sym, ap, ◌∙◌, Bool, true, false, none, some, String, string_key, nat_key,
  [], get, insert, remove, contains_key, get-insert_other, get-insert_same, get-remove_same,
  contains_key-insert_same, contains_key-remove, if_pos, if_neg, done, panicked, ◌∷◌, string_dec,
  arith,
}
use decentralized_llm_infere.Protocol.OpenAi.{Model}
use decentralized_llm_infere.OpenaiHttp.Store.{
  ModelStore, ModelStoreElement, add_model, remove_model, has_sender,
}
use decentralized_llm_infere.Control.Workers.{
  Phase, loading, running, leaving, over, Worker, ModelState, P2pState, P2pStart, ok, model_of,
  set_phase, p2p_start, stop_worker, stopped, p2p_stop, loaded, chats_closed, left, task_step,
}

-- The task of a worker that was just started.
abbrev pub fresh : String → Phase → Worker
fresh model phase = record {
  model = model;
  phase = phase;
  status = record { ready = false; peers = []; sessions = 0 };
}

loaded_lem :
    (id : ℕ) (w : Worker) (s : P2pState) {m : Model}
    → model_of w.model ≡ some m
    → task_step loaded id w s ≡ record (set_phase id running w s) { store = add_model id m s.store }
unfolding task_step
loaded_lem id w s e = rw (e, task_step)

left_lem :
    (id : ℕ) (w : Worker) (s : P2pState) {m : Model}
    → model_of w.model ≡ some m
    → task_step left id w s ≡ record (set_phase id over w s) { store = remove_model m.id s.store }
unfolding task_step
left_lem id w s e = rw (e, task_step)

chats_closed_lem :
    (id : ℕ) (w : Worker) (s : P2pState)
    → has_sender id s.store ≡ false
    → task_step chats_closed id w s ≡ set_phase id leaving w s
unfolding task_step
chats_closed_lem id w s e = rw (task_step, e) refl

has_sender-remove :
    (id : ℕ) (k : String) (store : ModelStore)
    → has_sender id store ≡ false
    → has_sender id (remove k store) ≡ false
unfolding has_sender remove
has_sender-remove id k [] h = refl
has_sender-remove id k ((j, e) ∷ store) h = elim (string_dec k j) [
  | yes p ↦ rw (if_pos _ p) (has_sender-remove id k store (ground arith))
  | no p ↦ rw (if_neg _ p) (ground (arith, has_sender-remove id k store))
]

-- Removed again, a model leaves no sender behind.
remove-insert :
    (k : String) (e : ModelStoreElement) (store : ModelStore)
    → remove k (insert k e store) ≡ remove k store
unfolding remove insert
remove-insert k e [] = if_pos (string_dec k k) refl _ _
remove-insert k e ((j, d) ∷ store) = elim (string_dec k j) [
  | yes p ↦
      ap (remove k) (if_pos (string_dec k j) p _ _)
      ∙ if_pos (string_dec k k) refl _ _
      ∙ sym (if_pos (string_dec k j) p _ _)
  | no p ↦
      ap (remove k) (if_neg (string_dec k j) p _ _)
      ∙ if_neg (string_dec k j) p _ _
      ∙ ap (λ m. (j, d) ∷ m) (remove-insert k e store)
      ∙ sym (if_neg (string_dec k j) p _ _)
]

-- Let a model run, let `p2p_stop` and then `p2p_start` be called for it, and let the new task load the
-- model; the channel of its chats is a new one. Both calls succeed. If the old task removes its model
-- from the store only after the new one has added it, no chat of the model can be asked for and the
-- channel of the new task has no sender: its loop ends, and it is over, while the control still lists
-- the model, and the next `p2p_stop` of it panics. If the old task comes first, the store has the
-- model with the channel of the new task.
pub stop-start :
    (valid_key : String → Bool) (body : P2pStart) (s : P2pState) (state : ModelState) (w : Worker)
    (m : Model)
    → valid_key body.private_key ≡ true
    → get body.model s.models ≡ some state
    → get state.worker s.workers ≡ some w
    → w.phase ≡ running
    → w.model ≡ body.model
    → model_of body.model ≡ some m
    → state.worker ≢ s.seed
    → has_sender s.seed s.store ≡ false
    → (s1 s2 : P2pState) × (p2p_stop body.model s ≡ done (some (ok, s1)))
      × (p2p_start valid_key body s1 ≡ done (ok, s2))
      × (let removed : P2pState =
            task_step left state.worker
              (record w { phase = leaving })
              (task_step loaded s.seed (fresh body.model loading) s2) in
          let ended : P2pState =
            task_step left s.seed
              (fresh body.model leaving)
              (task_step chats_closed s.seed (fresh body.model running) removed) in
          (get s.seed removed.workers ≡ some (fresh body.model running))
          × (get m.id removed.store ≡ none)
          × (has_sender s.seed removed.store ≡ false)
          × (get s.seed ended.workers ≡ some (fresh body.model over))
          × (contains_key body.model ended.models ≡ true)
          × (p2p_stop body.model ended ≡ panicked))
      × (get m.id
            (task_step loaded s.seed
              (fresh body.model loading)
              (task_step left state.worker (record w { phase = leaving }) s2)).store
          ≡ some (record { model = m; tx = s.seed }))
unfolding p2p_stop stop_worker stopped p2p_start set_phase add_model remove_model
stop-start valid_key body s state w m key listed found runs same known new' unsent =
    let s1 : P2pState = record s {
      workers = insert state.worker (record w { phase = leaving }) s.workers;
      models = remove body.model s.models;
    } in
    let started : ModelState = record {
      model = body.model;
      from_layer = body.from_layer;
      to_layer = body.to_layer;
      worker = s.seed;
    } in
    let s2 : P2pState = record s1 {
      models = insert body.model started s1.models;
      workers = insert s.seed (fresh body.model loading) s1.workers;
      seed = suc s.seed;
    } in
    let gone : contains_key body.model s1.models ≡ false =
      contains_key-remove body.model body.model s.models
      ∙ if_pos (string_key.dec body.model body.model) refl _ _ in
    let old : Worker = record w { phase = leaving } in
    let known' : model_of w.model ≡ some m = ap model_of same ∙ known in
    let s3 : P2pState = record (set_phase s.seed running (fresh body.model loading) s2) {
      store = add_model s.seed m s2.store;
    } in
    let removed : P2pState = record (set_phase state.worker over old s3) {
      store = remove_model m.id s3.store;
    } in
    let none_left : has_sender s.seed removed.store ≡ false =
      ap (has_sender s.seed) (remove-insert m.id _ s.store)
      ∙ has_sender-remove s.seed m.id s.store unsent in
    let s5 : P2pState = set_phase s.seed leaving (fresh body.model running) removed in
    let ended : P2pState = record (set_phase s.seed over (fresh body.model leaving) s5) {
      store = remove_model m.id s5.store;
    } in
    let loads : task_step loaded s.seed (fresh body.model loading) s2 ≡ s3 =
      loaded_lem s.seed (fresh body.model loading) s2 known in
    let leaves : task_step left state.worker old s3 ≡ removed =
      left_lem state.worker old s3 known' in
    let closes : task_step chats_closed s.seed (fresh body.model running) removed ≡ s5 =
      chats_closed_lem s.seed (fresh body.model running) removed none_left in
    let ends : task_step left s.seed (fresh body.model leaving) s5 ≡ ended =
      left_lem s.seed (fresh body.model leaving) s5 known in
    let leaves' = left_lem state.worker old s2 known' in
    let loads' =
      loaded_lem s.seed (fresh body.model loading)
        (record (set_phase state.worker over old s2) { store = remove_model m.id s2.store })
        known in
    let over_at : get s.seed ended.workers ≡ some (fresh body.model over) =
      get-insert_same s.seed _ _ in
    let listed' : get body.model ended.models ≡ some started =
      get-insert_same body.model started s1.models in
    (
      s1,
      s2,
      rw (listed, p2p_stop, found, stop_worker, runs),
      rw (gone, key),
      rw (loads, leaves)
          (
            get-insert_other state.worker s.seed _ _ new' ∙ get-insert_same s.seed _ _,
            get-remove_same m.id _,
            none_left,
            rw (closes, ends) over_at,
            rw (closes, ends) (contains_key-insert_same body.model _ _),
            rw (closes, ends) (rw (p2p_stop, listed', over_at, stop_worker) refl),
          ),
      rw (leaves', loads') (get-insert_same m.id _ _),
    )
