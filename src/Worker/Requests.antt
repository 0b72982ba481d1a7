-- ===== src/Worker/Requests.antt =====
-- on_req of crates/worker/src/model_service.rs, and VirtualModelLayers of
-- crates/worker/src/virtual_model_layers.rs, with which the head of a chain calls its own service.
-- The coding of the messages (prost) is a parameter.
use decentralized_llm_infere.Base.{
  ℕ, Bool, true, false, Option, none, some, List, [], length, if◌then◌else◌, string_key, ite, done,
  expect, ◌>>=◌,
}
use decentralized_llm_infere.Protocol.Llm.{
  StartReq, StartRes, ForwardReq, ForwardRes, EndReq, EndRes,
}
use decentralized_llm_infere.Usage.{WorkerUsageService}
use decentralized_llm_infere.TensorBuf.{Candle, from_tensor, to_tensor, to_vec, try_from}
use decentralized_llm_infere.Worker.Rpc.{RpcReq, RpcRes}
use decentralized_llm_infere.Worker.ModelService.{
  LayersWorker, ModelService, Request, more_net_in, more_net_out,
}
use decentralized_llm_infere.Worker.Handlers.{Handled, start, forward, end}

-- What the code uses of prost.
pub record Prost : Type 0 where
  pub decode_start : List ℕ → Option StartReq
  pub decode_forward : List ℕ → Option ForwardReq
  pub decode_end : List ℕ → Option EndReq
  pub encode_start : StartRes → List ℕ
  pub encode_forward : ForwardRes → List ℕ
  pub encode_end : EndRes → List ℕ

-- The requests that a service makes of the nodes behind it.
pub record Remote (Node W : Type 0) : Type 0 where
  pub start_rpc : Request Node StartReq StartRes W
  pub forward_rpc : Request Node ForwardReq ForwardRes W
  pub end_rpc : Request Node EndReq EndRes W

abbrev answered : RpcReq → List ℕ → RpcRes
answered req payload = record { seq = req.seq; success = true; payload = payload }

module _ {Node S T L F W : Type 0} (model_layers : ℕ) (remote : Remote Node W)
    (worker : LayersWorker T L) (candle : Candle T) (usage : WorkerUsageService S) where
  -- `remote_session` is the number that `Session::new` gives, should the request be a start.
  unfoldable pub on_req :
      Prost → ℕ → RpcReq → ModelService Node S L F → W → Handled RpcRes (ModelService Node S L F) W
  on_req prost remote_session req s w =
      ite (string_key.dec req.cmd "START")
        (expect (prost.decode_start req.payload) >>= λ start_req.
          start worker candle usage model_layers remote.start_rpc remote_session start_req s w
          >>= λ r. done (answered req (prost.encode_start r.0), r.1, r.2))
        (ite (string_key.dec req.cmd "FORWARD")
          (expect (prost.decode_forward req.payload) >>= λ forward_req.
            forward worker candle usage remote.forward_rpc forward_req
              (more_net_in (length req.payload) s) w
            >>= λ r.
                let payload = prost.encode_forward r.0 in
                done (answered req payload, more_net_out (length payload) r.1, r.2))
          (ite (string_key.dec req.cmd "END")
            (expect (prost.decode_end req.payload) >>= λ end_req.
              end worker candle usage remote.end_rpc end_req s w >>= λ r.
              done (answered req (prost.encode_end r.0), r.1, r.2))
            (done (record { seq = req.seq; success = false; payload = [] }, s, w))))

  -- `VirtualModelLayers::start`: `false` for `Err`.
  unfoldable pub virtual_start :
      ℕ → ℕ → ℕ → ModelService Node S L F → W → Handled Bool (ModelService Node S L F) W
  virtual_start remote_session session max_len s w =
      start worker candle usage model_layers remote.start_rpc remote_session
        (record {
          session = session;
          chat_id = session;
          from_layer = 0;
          metadata = [];
          chain_index = 0;
          max_tokens = max_len;
        })
        s w
      >>= λ r. done (r.0.success, r.1, r.2)

  -- `VirtualModelLayers::forward`: `none` for `Err`.
  unfoldable pub virtual_forward :
      ℕ
      → ℕ
      → T × ℕ
      → ℕ
      → ModelService Node S L F
      → W
      → Handled (Option (T × ℕ)) (ModelService Node S L F) W
  virtual_forward session step (tensor, seq_len) index_pos s w =
      forward worker candle usage remote.forward_rpc
        (record {
          session = session;
          step = step;
          embedding = to_vec candle (from_tensor candle tensor);
          index_pos = index_pos;
          seq_len = seq_len;
          metadata = [];
          chain_index = 0;
        })
        s w
      >>= λ r.
          if r.0.success
          then (try_from candle r.0.embedding >>= λ buf. done (elim (to_tensor candle buf) [
            | none ↦ (none, r.1, r.2)
            | some out ↦ (some (out, seq_len), r.1, r.2)
          ]))
          else done (none, r.1, r.2)

  -- `VirtualModelLayers::finish`
  unfoldable pub virtual_finish :
      ℕ → ModelService Node S L F → W → Handled Unit (ModelService Node S L F) W
  virtual_finish session s w =
      end worker candle usage remote.end_rpc
        (record { session = session; metadata = []; chain_index = 0 }) s w
      >>= λ r. done (tt, r.1, r.2)
