-- ===== src/Worker/Pipeline.antt =====
-- forward of crates/worker/src/model_service.rs and VirtualModelLayers::forward: the nodes of a
-- chain, each of which passes the embedding on to the next.
use decentralized_llm_infere.Base.{
  ℕ, zero, suc, ◌+◌, ◌≡◌, ◌≤◌, refl, ap, ◌∙◌, true, Option, none, some, List, [], ◌∷◌, length, get,
  nat_key, done, ◌>>=◌, u32, arith,
}
use decentralized_llm_infere.Router.{Range}
use decentralized_llm_infere.Protocol.Llm.{ForwardReq, ForwardRes}
use decentralized_llm_infere.Usage.{passthrough}
use decentralized_llm_infere.TensorBuf.{
  Candle, TensorBuf, from_tensor, to_vec, try_from-to_vec, to_tensor-from_tensor,
}
use decentralized_llm_infere.Worker.ModelService.{
  LayersWorker, ModelService, Request, more_token_out, more_net_in, more_net_out,
}
use decentralized_llm_infere.Worker.Handlers.{forward, forward_local, forward_remote}
use decentralized_llm_infere.Worker.Requests.{Remote, virtual_forward}

abbrev pub Services : Type 0 → Type 0 → Type 0 → Type 0
Services Node L F = List (ModelService Node Unit L F)

-- What a node's own layers make of a tensor, where the session has layers there.
module _ {T L : Type 0} (worker : LayersWorker T L) where
  abbrev pub Near : Option Range → (session step n pos : ℕ) → L → T → T → Type 0
  Near none session step n pos l t u = t ≡ u
  Near (some layers) session step n pos l t u =
      (n' : ℕ) × (l' : L) × (worker.forward session step (t, n) pos l ≡ (some (u, n'), l'))

module _ {T : Type 0} (candle : Candle T) where
  abbrev bytes_of : T → List ℕ
  bytes_of t = to_vec candle (from_tensor candle t)

  abbrev good : List ℕ → T → ForwardRes
  good metadata u = record { success = true; embedding = bytes_of u; metadata = metadata }

  abbrev request : (step n pos session chain_index : ℕ) → List ℕ → T → ForwardReq
  request step n pos session chain_index metadata t = record {
    session = session;
    step = step;
    embedding = bytes_of t;
    index_pos = pos;
    seq_len = n;
    metadata = metadata;
    chain_index = chain_index;
  }

module _ {Node T L F : Type 0} (worker : LayersWorker T L) (candle : Candle T) where
  -- The nodes behind a node: the request goes to the first of them, whoever is asked for.
  abbrev pub chain : ℕ → Request Node ForwardReq ForwardRes (Services Node L F)
  chain zero dest req nodes = done (none, nodes)
  chain (suc depth) dest req [] = done (none, [])
  chain (suc depth) dest req (s ∷ nodes) =
      forward worker candle passthrough (chain depth) req s nodes >>= λ r.
      done (some r.0, r.1 ∷ r.2)

module _ {Node T L F : Type 0} (worker : LayersWorker T L) (step n pos : ℕ) where
  -- What the layers that a session has, over the nodes of the chain, make of a tensor: at each node
  -- the session has a container, which says whether there are layers there, and whether the
  -- session goes on at the next node, under another number.
  pub data Computes : Services Node L F → ℕ → T → T → Type 0 where
    ends :
        {s : ModelService Node Unit L F} {nodes : Services Node L F} {session : ℕ} {t u : T}
        → (chat_id : ℕ) (local : Option Range)
        → get session s.sessions ≡ some (record { chat_id = chat_id; local = local; remote = none })
        → Near worker local session step n pos s.layers t u
        → Computes (s ∷ nodes) session t u
    goes_on :
        {s : ModelService Node Unit L F} {nodes : Services Node L F} {session : ℕ} {t u v : T}
        → (chat_id : ℕ) (local : Option Range) (dest : Node) (next : ℕ)
        → get session s.sessions
          ≡ some (record { chat_id = chat_id; local = local; remote = some (dest, next) })
        → Near worker local session step n pos s.layers t u
        → Computes nodes next u v
        → Computes (s ∷ nodes) session t v

module _ {Node T L F : Type 0} (worker : LayersWorker T L) where
  no_nodes :
      (step n pos session : ℕ) (t u : T)
      → ¬ Computes {Node = Node} {F = F} worker step n pos [] session t u
  no_nodes step n pos session t u never = elim never [ ]

module _ {Node T L F : Type 0} (worker : LayersWorker T L) (candle : Candle T)
    (bincode : (b : TensorBuf) → candle.deserialize (candle.serialize b) ≡ some b)
    (raw : (t : T)
      → candle.from_raw_buffer (candle.write_bytes t) (candle.dtype_of t) (candle.dims_of t)
        ≡ some t) where
  near_lem :
      (req : ForwardReq) (local : Option Range) (s : ModelService Node Unit L F) (t u : T)
      → req.embedding ≡ bytes_of candle t
      → Near worker local req.session req.step req.seq_len req.index_pos s.layers t u
      → (s' : ModelService Node Unit L F) × (forward_local worker candle req local s
          ≡ done (bytes_of candle u, s'))
  unfolding forward_local
  near_lem req none s t u sent near =
      (s, ap done (ap (λ e. (e, s)) (sent ∙ ap (bytes_of candle) near)))
  near_lem req (some layers) s t u sent (n', l', near) = (
    more_token_out (record s { layers = l' }),
    rw
        (
          sent,
          try_from-to_vec candle bincode raw (from_tensor candle t),
          to_tensor-from_tensor candle bincode raw t,
          near,
        )
        refl,
  )

  -- One node: the request goes through it, and on to the network where the session goes on.
  forward_lem :
      (rpc : Request Node ForwardReq ForwardRes (Services Node L F)) (req : ForwardReq)
      (local : Option Range) (remote : Option (Node × ℕ)) (chat_id : ℕ)
      (s : ModelService Node Unit L F) (nodes : Services Node L F) (t u : T)
      → req.embedding ≡ bytes_of candle t
      → get req.session s.sessions
        ≡ some (record { chat_id = chat_id; local = local; remote = remote })
      → Near worker local req.session req.step req.seq_len req.index_pos s.layers t u
      → (s1 : ModelService Node Unit L F) × (forward worker candle passthrough rpc req s nodes ≡ (
          forward_remote rpc req (bytes_of candle u) remote s1 nodes >>= λ far.
          done (far.0, record far.1 { usage_service = far.1.usage_service }, far.2)))
  unfolding forward passthrough
  forward_lem rpc req local remote chat_id s nodes t u sent found near =
      let (s1, run) = near_lem req local s t u sent near in (s1, rw (found, run, forward) refl)

  handled-Computes :
      (step n pos depth session chain_index : ℕ) (metadata : List ℕ)
      (s : ModelService Node Unit L F) (nodes : Services Node L F) (t u : T)
      → length nodes ≤ depth
      → Computes worker step n pos (s ∷ nodes) session t u
      → (s' : ModelService Node Unit L F) × (nodes' : Services Node L F) × (forward worker candle
            passthrough
            (chain worker candle depth)
            (request candle step n pos session chain_index metadata t)
            s
            nodes
          ≡ done (good candle metadata u, s', nodes'))
  unfolding forward_remote
  handled-Computes step n pos depth session i metadata s nodes t u deep
        (ends chat_id local found near) =
      let (s1, run) =
        forward_lem (chain worker candle depth) (request candle step n pos session i metadata t)
          local none chat_id s nodes t u refl found near in
      (s1, nodes, run)
  handled-Computes step n pos depth session i metadata s [] t u deep
        (goes_on chat_id local dest next found near rest) =
      absurd (no_nodes worker step n pos next _ u rest)
  handled-Computes step n pos zero session i metadata s (s2 ∷ nodes) t u deep
        (goes_on chat_id local dest next found near rest) =
      absurd (omega arith)
  handled-Computes step n pos (suc depth) session i metadata s (s2 ∷ nodes) t u deep
        (goes_on {u = v} chat_id local dest next found near rest) =
      let (s1, run) =
        forward_lem (chain worker candle (suc depth))
          (request candle step n pos session i metadata t) local (some (dest, next)) chat_id s
          (s2 ∷ nodes) t v refl found near in
      let (s3, nodes3, far) =
        handled-Computes step n pos depth next (u32 (i + 1)) metadata s2 nodes v u (omega arith)
          rest in
      (
        more_net_in (length (bytes_of candle u)) (more_net_out (length (bytes_of candle v)) s1),
        s3 ∷ nodes3,
        run ∙ rw far refl,
      )

  -- Let a session run over a chain of nodes whose layers make one tensor of another, and let
  -- bincode and candle read back what they write. The head of the chain gets that tensor back from
  -- its call of the virtual layers, with the embedding passed from node to node as bytes, where no
  -- node's usage service interferes.
  pub virtual_forward-Computes :
      (model_layers depth session step n pos : ℕ) (remote : Remote Node (Services Node L F))
      (s : ModelService Node Unit L F) (nodes : Services Node L F) (t u : T)
      → remote.forward_rpc ≡ chain worker candle depth
      → length nodes ≤ depth
      → Computes worker step n pos (s ∷ nodes) session t u
      → (s' : ModelService Node Unit L F) × (nodes' : Services Node L F) × (virtual_forward
            model_layers remote worker candle passthrough session step
            (t, n)
            pos
            s
            nodes
          ≡ done (some (u, n), s', nodes'))
  unfolding virtual_forward
  virtual_forward-Computes model_layers depth session step n pos remote s nodes t u network deep
        path =
      let (s', nodes', run) =
        handled-Computes step n pos depth session 0 [] s nodes t u deep path in
      (
        s',
        nodes',
        rw
            (
              network,
              run,
              try_from-to_vec candle bincode raw (from_tensor candle u),
              to_tensor-from_tensor candle bincode raw u,
            )
            refl,
      )
