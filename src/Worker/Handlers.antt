-- ===== src/Worker/Handlers.antt =====
-- start, forward, end and on_req of crates/worker/src/model_service.rs. A handler gives its answer,
-- the service and the network behind it afterwards.
use decentralized_llm_infere.Base.{
  ℕ, ◌+◌, Bool, true, false, Option, none, some, List, length, if◌then◌else◌, get, insert, remove,
  nat_key, string_key, u32, Outcome, done, expect, ◌>>=◌,
}
use mathlib.Core.Option
use decentralized_llm_infere.Protocol.Llm.{
  StartReq, StartRes, ForwardReq, ForwardRes, EndReq, EndRes,
}
use decentralized_llm_infere.Router.{Range, RoutePath, Hop, select_next}
use decentralized_llm_infere.Usage.{WorkerUsageService}
use decentralized_llm_infere.TensorBuf.{Candle, from_tensor, to_tensor, to_vec, try_from}
use decentralized_llm_infere.Worker.ModelService.{
  LayersWorker, SessionContainer, ModelService, Request, failed_start, failed_forward, failed_end,
  or_else, more_net_in, more_net_out, more_token_out,
}

-- The answer of a handler, the service and the network.
abbrev pub Handled : Type 0 → Type 0 → Type 0 → Type 0
Handled Res M W = Outcome (Res × M × W)

module _ {Node S T L F : Type 0} (worker : LayersWorker T L) where
  -- The local part of `start`: `false` where the layers refuse.
  unfoldable pub start_local :
      ℕ → Option Range → ModelService Node S L F → Bool × ModelService Node S L F
  start_local session none s = (true, s)
  start_local session (some layers) s =
      let (ok, l) = worker.start session s.layers in (ok, record s { layers = l })

  unfoldable pub end_local : ℕ → Option Range → ModelService Node S L F → ModelService Node S L F
  end_local session none s = s
  end_local session (some layers) s = record s { layers = worker.finish session s.layers }

module _ {Node W : Type 0} where
  -- The remote part of `start`.
  unfoldable pub start_remote :
      Request Node StartReq StartRes W
      → ℕ
      → StartReq
      → Option (Hop Node)
      → W
      → Outcome (StartRes × W)
  start_remote rpc remote_session req none w =
      done (record { success = true; metadata = req.metadata }, w)
  start_remote rpc remote_session req (some hop) w =
      rpc hop.dest
        (record {
          session = remote_session;
          chat_id = req.chat_id;
          from_layer = hop.layers.start;
          metadata = req.metadata;
          chain_index = u32 (req.chain_index + 1);
          max_tokens = req.max_tokens;
        })
        w
      >>= λ answer.
          done (or_else (record { success = false; metadata = req.metadata }) answer.0, answer.1)

  unfoldable pub end_remote :
      Request Node EndReq EndRes W → EndReq → Option (Node × ℕ) → W → Outcome (EndRes × W)
  end_remote rpc req none w = done (record { success = true; metadata = req.metadata }, w)
  end_remote rpc req (some (dest, remote_session)) w =
      rpc dest
        (record {
          session = remote_session;
          metadata = req.metadata;
          chain_index = u32 (req.chain_index + 1);
        })
        w
      >>= λ answer.
          done (or_else (record { success = false; metadata = req.metadata }) answer.0, answer.1)

module _ {Node S T L F : Type 0} (worker : LayersWorker T L) (candle : Candle T) where
  -- The local part of `forward`: the embedding after this node's layers.
  unfoldable pub forward_local :
      ForwardReq
      → Option Range
      → ModelService Node S L F
      → Outcome (List ℕ × ModelService Node S L F)
  forward_local req none s = done (req.embedding, s)
  forward_local req (some layers) s = try_from candle req.embedding >>= λ buf.
      expect (to_tensor candle buf) >>= λ tensor.
      let (out, l) =
        worker.forward req.session req.step (tensor, req.seq_len) req.index_pos s.layers in
      expect out >>= λ embedding.
      done
        (to_vec candle (from_tensor candle embedding.0), more_token_out (record s { layers = l }))

module _ {Node S L F W : Type 0} where
  -- The remote part of `forward`.
  unfoldable pub forward_remote :
      Request Node ForwardReq ForwardRes W
      → ForwardReq
      → List ℕ
      → Option (Node × ℕ)
      → ModelService Node S L F
      → W
      → Handled ForwardRes (ModelService Node S L F) W
  forward_remote rpc req embedding none s w =
      done (record { success = true; embedding = embedding; metadata = req.metadata }, s, w)
  forward_remote rpc req embedding (some (dest, remote_session)) s w =
      rpc dest
        (record {
          session = remote_session;
          step = req.step;
          embedding = embedding;
          index_pos = req.index_pos;
          seq_len = req.seq_len;
          metadata = req.metadata;
          chain_index = u32 (req.chain_index + 1);
        })
        w
      >>= λ answer.
          let failed : ForwardRes = record failed_forward { metadata = req.metadata } in
          let res = or_else failed answer.0 in
          done
            (res, more_net_in (length res.embedding) (more_net_out (length embedding) s), answer.1)

module _ {Node S T L F W : Type 0} (worker : LayersWorker T L) (candle : Candle T)
    (usage : WorkerUsageService S) where
  -- `start` with the route that the table has.
  unfoldable pub start_route :
      Request Node StartReq StartRes W
      → ℕ
      → StartReq
      → RoutePath Node
      → ModelService Node S L F
      → W
      → Handled StartRes (ModelService Node S L F) W
  start_route rpc remote_session req route s w =
      let container : SessionContainer Node = record {
        chat_id = req.chat_id;
        local = route.local;
        remote = Option.map (λ h. (h.dest, remote_session)) route.remote;
      } in
      let stored = record s { sessions = insert req.session container s.sessions } in
      let (started, s') = start_local worker req.session route.local stored in
      if started
      then (start_remote rpc remote_session req route.remote w >>= λ answer.
          usage.post_start req answer.0 s'.usage_service >>= λ out.
          done (out.0, record s' { usage_service = out.1 }, answer.1))
      else done (failed_start, s', w)

  unfoldable pub start :
      ℕ
      → Request Node StartReq StartRes W
      → ℕ
      → StartReq
      → ModelService Node S L F
      → W
      → Handled StartRes (ModelService Node S L F) W
  start model_layers rpc remote_session req s w = usage.pre_start req s.usage_service >>= λ pre.
      let s' = record s { usage_service = pre.1 } in
      elim pre.0 [
        | none ↦ done (failed_start, s', w)
        | some req' ↦ select_next model_layers s'.router req'.from_layer >>= λ path. elim path [
          | none ↦ done (failed_start, s', w)
          | some route ↦ start_route rpc remote_session req' route s' w
        ]
      ]

  unfoldable pub forward :
      Request Node ForwardReq ForwardRes W
      → ForwardReq
      → ModelService Node S L F
      → W
      → Handled ForwardRes (ModelService Node S L F) W
  forward rpc req s w = elim (get req.session s.sessions) [
    | none ↦ done (failed_forward, s, w)
    | some container ↦ usage.pre_forward container.chat_id req s.usage_service >>= λ pre.
        let s' = record s { usage_service = pre.1 } in
        elim pre.0 [
          | none ↦ done (failed_forward, s', w)
          | some req' ↦ forward_local worker candle req' container.local s' >>= λ near.
              forward_remote rpc req' near.0 container.remote near.1 w >>= λ far.
              usage.post_forward container.chat_id req' far.0 far.1.usage_service >>= λ out.
              done (out.0, record far.1 { usage_service = out.1 }, far.2)
        ]
  ]

  unfoldable pub end :
      Request Node EndReq EndRes W
      → EndReq
      → ModelService Node S L F
      → W
      → Handled EndRes (ModelService Node S L F) W
  end rpc req s w = elim (get req.session s.sessions) [
    | none ↦ done (failed_end, s, w)
    | some container ↦
        let removed = record s { sessions = remove req.session s.sessions } in
        usage.pre_end container.chat_id req s.usage_service >>= λ pre.
        let s' = record removed { usage_service = pre.1 } in
        elim pre.0 [
          | none ↦ done (failed_end, s', w)
          | some req' ↦
              let s2 = end_local worker req'.session container.local s' in
              end_remote rpc req' container.remote w >>= λ far.
              usage.post_end container.chat_id req' far.0 s2.usage_service >>= λ out.
              done (out.0, record s2 { usage_service = out.1 }, far.1)
        ]
  ]
