-- ===== src/Router/Exchange.antt =====
-- How a route travels: create_sync at one node, apply_sync at its neighbour, in
-- crates/model-router/src/table.rs, with the message of crates/protocol/src/lib.rs between them.
use decentralized_llm_infere.Base.{
  ℕ, zero, suc, ◌+◌, ◌<◌, ◌≤◌, ◌^◌, ◌≡◌, refl, ite, Option, none, some, List, [], ◌∷◌, arith,
  length, get_elem?, get_elem?_below, Key, get, get-insert, get-remove, done, u32,
}
use mathlib.Core.Option
use native.Mathlib.Nat.{add-zero, add-suc, suc-add, zero-add}
use decentralized_llm_infere.Protocol.{encode_sync, decode_sync, decode_sync-encode_sync}
use decentralized_llm_infere.Router.{
  RoutePath, RouteSync, LayerRemoteInfo, LayerRemotePaths, RouteTable, select_next, sync_layer,
  sync_layers, apply_sync, advertise, sync_from, create_sync, update_best,
}
use decentralized_llm_infere.Router.Invariant.{IsValid}
use decentralized_llm_infere.Router.Select.{select_next-Answers}

-- The entry that a neighbour stores for an advertised layer.
abbrev pub farther : ℕ → LayerRemoteInfo → LayerRemoteInfo
farther rtt info = record info { cost = u32 (info.cost + rtt) }

-- `sync.layers.get(layer)`, with the two kinds of absence joined.
abbrev pub advertised : List (Option LayerRemoteInfo) → ℕ → Option LayerRemoteInfo
advertised [] l = none
advertised (x ∷ ls) zero = x
advertised (x ∷ ls) (suc l) = advertised ls l

module _ {Node : Type 0} ⦃key : Key Node⦄ where
  get-sync_layer :
      (from node : Node) (rtt : ℕ) (info : Option LayerRemoteInfo) (p : LayerRemotePaths Node)
      → get node (sync_layer from rtt info p).remotes
        ≡ ite (key.dec node from) (Option.map (farther rtt) info) (get node p.remotes)
  unfolding sync_layer update_best
  get-sync_layer from node rtt none p = get-remove from node p.remotes
  get-sync_layer from node rtt (some info) p = get-insert from node (farther rtt info) p.remotes

  sync_layers-at :
      (from : Node) (rtt : ℕ) (ls : List (Option LayerRemoteInfo))
      (ps : List (LayerRemotePaths Node)) (l : ℕ) {p : LayerRemotePaths Node}
      → get_elem? ps l ≡ some p
      → get_elem? (sync_layers from rtt ls ps) l ≡ some (sync_layer from rtt (advertised ls l) p)
  unfolding sync_layers
  sync_layers-at from rtt ls [] l h = absurd (cc)
  sync_layers-at from rtt [] (q ∷ ps) zero h = ground arith
  sync_layers-at from rtt (x ∷ ls) (q ∷ ps) zero h = ground arith
  sync_layers-at from rtt [] (q ∷ ps) (suc l) h = sync_layers-at from rtt [] ps l h
  sync_layers-at from rtt (x ∷ ls) (q ∷ ps) (suc l) h = sync_layers-at from rtt ls ps l h

  -- At every layer of the table, a sync replaces what the table says of its sender by what the
  -- sender advertises, at a cost that is higher by the round trip time (in u32 arithmetic); a layer
  -- that the sender leaves out is forgotten, and the entries of all other nodes stay.
  pub apply_sync-entries :
      (from node : Node) (rtt : ℕ) (sync : RouteSync) (t : RouteTable Node) (l : ℕ)
      {p : LayerRemotePaths Node}
      → get_elem? t.remote_layers l ≡ some p
      → (q : LayerRemotePaths Node) × (get_elem? (apply_sync from rtt sync t).remote_layers l
          ≡ some q)
        × (get node q.remotes
            ≡ ite
                (key.dec node from)
                (Option.map (farther rtt) (advertised sync.layers l))
                (get node p.remotes))
  unfolding apply_sync
  apply_sync-entries from node rtt sync t l {p} at = (
    sync_layer from rtt (advertised sync.layers l) p,
    sync_layers-at from rtt sync.layers t.remote_layers l at,
    get-sync_layer from node rtt (advertised sync.layers l) p,
  )

  module _ (n : ℕ) (small : n < 2 ^ 32) (t : RouteTable Node) (valid : IsValid n t)
      (fits : t.local_layers.end ≤ n) (now_ms : ℕ) where
    abbrev Advertises : List (Option LayerRemoteInfo) → ℕ → ℕ → Type 0
    Advertises ls first l =
        (path : Option (RoutePath Node)) × (select_next n t (first + l) ≡ done path)
        × (advertised ls l ≡ Option.map (advertise now_ms) path)

    Advertises-cons :
        (first count : ℕ) (path : Option (RoutePath Node)) (ls : List (Option LayerRemoteInfo))
        → select_next n t first ≡ done path
        → ((l : ℕ) → l < count → Advertises ls (suc first) l)
        → (l : ℕ) → l < suc count
        → Advertises (Option.map (advertise now_ms) path ∷ ls) first l
    Advertises-cons first count path ls e rest zero below = (path, rw add-zero e, refl)
    Advertises-cons first count path ls e rest (suc l) below =
        let (path', e', same) = rest l (omega arith) in (path', rw (add-suc, ← suc-add) e', same)

    sync_from_lem :
        (first count : ℕ)
        → first + count ≤ n
        → (ls : List (Option LayerRemoteInfo)) × (sync_from n t now_ms first count ≡ done ls)
          × (length ls ≡ count)
          × ((l : ℕ) → l < count → Advertises ls first l)
    unfolding sync_from
    sync_from_lem first zero h = ([], refl, refl, λ l below. absurd (omega arith))
    sync_from_lem first (suc count) h =
        let (path, e, _) = select_next-Answers n small t valid first (omega arith) fits in
        let (ls, e', len, at) = sync_from_lem (suc first) count (omega arith) in
        (
          Option.map (advertise now_ms) path ∷ ls,
          rw (e, e'),
          omega arith,
          Advertises-cons first count path ls e at,
        )

    -- Of a valid table of a model with fewer than 2^32 layers, the node's own layers within it,
    -- `create_sync` does not panic: it advertises, for each layer of the model, the cost and the
    -- time of the route that `select_next` gives, at cost 0 and the time now where the node serves
    -- all the rest itself, and nothing where there is no route.
    pub create_sync_lem :
        (sync : RouteSync) × (create_sync n t now_ms ≡ done sync)
        × (length sync.layers ≡ n)
        × ((l : ℕ)
            → l < n
            → (path : Option (RoutePath Node)) × (select_next n t l ≡ done path)
              × (advertised sync.layers l ≡ Option.map (advertise now_ms) path))
    unfolding create_sync
    create_sync_lem =
        let (ls, e, len, at) = sync_from_lem 0 n (omega arith) in
        (record { layers = ls }, rw e, len, λ l below. rw zero-add at (at l below))

    -- The whole exchange, between valid tables of one model with fewer than 2^32 layers, the
    -- sender's own layers within it: what the sender advertises, sent as a message and applied by a
    -- neighbour, makes the neighbour's entry for the sender at each layer of the model the sender's
    -- own route for that layer, with the round trip time added to its cost (in u32 arithmetic), and
    -- no entry where the sender has no route.
    pub exchange_lem :
        (from : Node) (rtt : ℕ) (u : RouteTable Node) (l : ℕ)
        → IsValid n u
        → l < n
        → (sync : RouteSync) × (create_sync n t now_ms ≡ done sync)
          × (path : Option (RoutePath Node)) × (select_next n t l ≡ done path)
          × (q : LayerRemotePaths Node) × (get_elem?
                (apply_sync from rtt (decode_sync (encode_sync sync)) u).remote_layers
                l
              ≡ some q)
          × (get from q.remotes ≡ Option.map (farther rtt) (Option.map (advertise now_ms) path))
    exchange_lem from rtt u l valid_u below =
        let (sync, e, _, at) = create_sync_lem in
        let (path, e', same) = at l below in
        let (p, at_u) = get_elem?_below u.remote_layers l (omega (arith, valid_u.sized)) in
        let (q, at_q, entry) = apply_sync-entries from from rtt sync u l at_u in
        (sync, e, path, e', q, rw (decode_sync-encode_sync sync) at_q, rw (← same) (ground arith))
