-- ===== src/Registry/Sessions/Distribution.antt =====
-- get_distribution of crates/registry/src/server/session_manager.rs: it counts, for each layer,
-- the nodes that serve it.
use decentralized_llm_infere.Base.{
  ℕ, zero, suc, ◌+◌, ◌≤◌, ◌<◌, ◌≡◌, refl, ap, ◌∙◌, inl, inr, Bool, false, ◌&&◌, none, some, List,
  [], ◌∷◌, length, get_or, arith, done, ltb, leb, ◌==◌, if◌then◌else◌, replicate, values,
  Option-cases, length-replicate, get_or-replicate,
}
use decentralized_llm_infere.Router.{Range, contains}
use decentralized_llm_infere.Registry.Sessions.{
  NodeInfo, SessionManager, count_layer, count_layers, count_nodes, max_layer, get_distribution,
  range_len,
}

abbrev indicator : Bool → ℕ
indicator b = if b then 1 else 0

count_layer_lem :
    (cs : List ℕ) (i : ℕ)
    → i < length cs
    → (cs' : List ℕ) × (count_layer cs i ≡ done cs')
      × (length cs' ≡ length cs)
      × ((l : ℕ) → get_or cs' l 0 ≡ get_or cs l 0 + indicator (l == i))
unfolding count_layer
count_layer_lem [] i h = absurd (omega arith)
count_layer_lem (c ∷ cs) zero h = (suc c ∷ cs, refl, refl, at)
  where
    at : (l : ℕ) → get_or (suc c ∷ cs) l 0 ≡ get_or (c ∷ cs) l 0 + indicator (l == 0)
    at zero = omega arith
    at (suc l) = ground arith
count_layer_lem (c ∷ cs) (suc i) h =
    let (cs', e, len, at) = count_layer_lem cs i (omega arith) in
    (c ∷ cs', rw e, ap suc len, shifted cs' at)
  where
    shifted :
        (cs' : List ℕ)
        → ((l : ℕ) → get_or cs' l 0 ≡ get_or cs l 0 + indicator (l == i))
        → (l : ℕ) → get_or (c ∷ cs') l 0 ≡ get_or (c ∷ cs) l 0 + indicator (l == suc i)
    shifted cs' at zero = ground arith
    shifted cs' at (suc l) = ground (arith, at l)

abbrev within : ℕ → ℕ → ℕ → Bool
within first count l = leb first l && ltb l (first + count)

count_layers_lem :
    (cs : List ℕ) (first count : ℕ)
    → (0 < count → first + count ≤ length cs)
    → (cs' : List ℕ) × (count_layers cs first count ≡ done cs')
      × (length cs' ≡ length cs)
      × ((l : ℕ) → get_or cs' l 0 ≡ get_or cs l 0 + indicator (within first count l))
unfolding count_layers
count_layers_lem cs first zero h = (cs, refl, refl, λ l. ground arith)
count_layers_lem cs first (suc count) h =
    let fits = h (omega arith) in
    let (cs', e, len, at) = count_layer_lem cs first (omega arith) in
    let (cs'', e', len', at') = count_layers_lem cs' (suc first) count (λ _. omega arith) in
    (cs'', rw (e, e'), omega arith, λ l. ground (arith, at l, at' l))

module _ {F : Type 0} where
  -- The nodes of the list that serve a layer.
  abbrev pub serves : NodeInfo F → ℕ → Bool
  serves info l = elim info.layers [ none ↦ false | some r ↦ contains r l ]

  pub servers : List (NodeInfo F) → ℕ → ℕ
  servers [] l = 0
  servers (info ∷ infos) l = indicator (serves info l) + servers infos l

  abbrev EndsWithin : ℕ → List (NodeInfo F) → Type 0
  EndsWithin m [] = Unit
  EndsWithin m (info ∷ infos) =
      ((r : Range) → info.layers ≡ some r → r.end ≤ m) × EndsWithin m infos

  max_layer-ge : (m : ℕ) (infos : List (NodeInfo F)) → m ≤ max_layer m infos
  unfolding max_layer
  max_layer-ge m [] = omega arith
  max_layer-ge m (info ∷ infos) =
      let grown : ℕ = elim info.layers [ none ↦ m | some r ↦ if ltb m r.end then r.end else m ] in
      ground (arith, max_layer-ge grown infos)

  max_layer-EndsWithin : (m : ℕ) (infos : List (NodeInfo F)) → EndsWithin (max_layer m infos) infos
  unfolding max_layer
  max_layer-EndsWithin m [] = tt
  max_layer-EndsWithin m (info ∷ infos) =
      let grown : ℕ = elim info.layers [ none ↦ m | some r ↦ if ltb m r.end then r.end else m ] in
      (λ r e. ground (arith, max_layer-ge grown infos), max_layer-EndsWithin grown infos)

  count_info_lem :
      (cs : List ℕ) (info : NodeInfo F)
      → ((r : Range) → info.layers ≡ some r → r.end ≤ length cs)
      → (cs' : List ℕ) × (elim info.layers [
        | none ↦ done cs
        | some r ↦ count_layers cs r.start (range_len r)
      ]
          ≡ done cs')
        × (length cs' ≡ length cs)
        × ((l : ℕ) → get_or cs' l 0 ≡ get_or cs l 0 + indicator (serves info l))
  count_info_lem cs info h = elim (Option-cases info.layers) [
    | inl e ↦ (cs, ground arith, refl, λ l. ground arith)
    | inr (r, e) ↦
        let inside = h r e in
        let (cs', e', len, at) = count_layers_lem cs r.start (range_len r) (λ pos. omega arith) in
        (cs', ground arith, len, λ l. ground (arith, at l))
  ]

  count_nodes_lem :
      (cs : List ℕ) (infos : List (NodeInfo F))
      → EndsWithin (length cs) infos
      → (cs' : List ℕ) × (count_nodes cs infos ≡ done cs')
        × (length cs' ≡ length cs)
        × ((l : ℕ) → get_or cs' l 0 ≡ get_or cs l 0 + servers infos l)
  unfolding count_nodes servers
  count_nodes_lem cs [] h = (cs, refl, refl, λ l. omega arith)
  count_nodes_lem cs (info ∷ infos) h =
      let (cs', e, len, at) = count_info_lem cs info h.0 in
      let (cs'', e', len', at') = count_nodes_lem cs' infos (rw len h.1) in
      (cs'', rw (e, count_nodes, e'), omega arith, λ l. omega (arith, at l, at' l))

  pub servers-le-length : (infos : List (NodeInfo F)) (l : ℕ) → servers infos l ≤ length infos
  unfolding servers
  servers-le-length [] l = omega arith
  servers-le-length (info ∷ infos) l = ground (arith, servers-le-length infos l)

  -- Whatever ranges the nodes have announced, swapped ends included, `get_distribution` does not
  -- panic. It is as long as the greatest end of an announced range, and its entry for a layer is
  -- the number of nodes whose range contains that layer; no node serves a layer past its end.
  pub get_distribution_lem :
      (s : SessionManager F)
      → (counts : List ℕ) × (get_distribution s ≡ done counts)
        × (length counts ≡ max_layer 0 (values s.nodes))
        × ((l : ℕ) → get_or counts l 0 ≡ servers (values s.nodes) l)
  unfolding get_distribution
  get_distribution_lem s =
      let infos : List (NodeInfo F) = values s.nodes in
      let n : ℕ = max_layer 0 infos in
      let sized = length-replicate n 0 in
      let ends = max_layer-EndsWithin 0 infos in
      let (counts, e, len, at) = count_nodes_lem (replicate n 0) infos (rw sized ends) in
      (counts, e, len ∙ sized, λ l. at l ∙ omega (arith, get_or-replicate {A = ℕ} n l 0))
