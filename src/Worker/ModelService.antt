-- ===== src/Worker/ModelService.antt =====
-- ModelService of crates/worker/src/model_service.rs. The node's own layers, tensors, floats and
-- the rest of the network behind a call are parameters; `Session::new` is an argument.
use decentralized_llm_infere.Base.{
  ℕ, ◌+◌, ◌*◌, ◌/◌, ◌-◌, ◌^◌, Bool, false, Option, none, some, List, [], leb, if◌then◌else◌,
  HashMap, keys, nat_key, u64, u32, Outcome,
}
use decentralized_llm_infere.Protocol.Llm.{StartRes, ForwardRes, EndRes}
use decentralized_llm_infere.Protocol.Registry.{Stats}
use decentralized_llm_infere.Router.{Range, RouteTable}

-- `models::ModelLayersWorker` for pairs of a tensor and a length. `false` and `none` are `Err`.
pub record LayersWorker (T L : Type 0) : Type 0 where
  pub start : ℕ → L → Bool × L
  pub forward : ℕ → ℕ → T × ℕ → ℕ → L → Option (T × ℕ) × L
  pub finish : ℕ → L → L

pub record SessionContainer (Node : Type 0) : Type 0 where
  pub chat_id : ℕ
  pub local : Option Range
  pub remote : Option (Node × ℕ)

pub record ModelService (Node S L F : Type 0) : Type 0 where
  pub layers : L
  pub sessions : HashMap ℕ (SessionContainer Node)
  pub router : RouteTable Node
  pub usage_service : S
  pub stats : Stats F
  pub last_updated_ms : ℕ
  pub last_updated_stats : Stats F

-- A call of another node: what it answers, and the network behind it afterwards.
abbrev pub Request : Type 0 → Type 0 → Type 0 → Type 0 → Type 0
Request Node Req Res W = Node → Req → W → Outcome (Option Res × W)

abbrev pub failed_start : StartRes
failed_start = record { success = false; metadata = [] }

abbrev pub failed_forward : ForwardRes
failed_forward = record { success = false; embedding = []; metadata = [] }

abbrev pub failed_end : EndRes
failed_end = record { success = false; metadata = [] }

abbrev pub or_else {ℓ} : {A : Type ℓ} → A → Option A → A
or_else a none = a
or_else a (some b) = b

module _ {Node S L F : Type 0} where
  abbrev pub more_net_in : ℕ → ModelService Node S L F → ModelService Node S L F
  more_net_in n s = record s {
    stats = record s.stats { network_in_bytes = u64 (s.stats.network_in_bytes + n) };
  }

  abbrev pub more_net_out : ℕ → ModelService Node S L F → ModelService Node S L F
  more_net_out n s = record s {
    stats = record s.stats { network_out_bytes = u64 (s.stats.network_out_bytes + n) };
  }

  abbrev pub more_token_out : ModelService Node S L F → ModelService Node S L F
  more_token_out s = record s {
    stats = record s.stats { token_out_sum = u32 (s.stats.token_out_sum + 1) };
  }

  -- `tick`, with the tokens of a second worked out by `rate` from a count and a time.
  unfoldable pub tick : (ℕ → ℕ → F) → ℕ → ModelService Node S L F → ModelService Node S L F
  tick rate now_ms s =
      let milis = now_ms - s.last_updated_ms in
      let pre = s.last_updated_stats in
      let per_second : ℕ → ℕ → ℕ = λ now before. u64 (u64 (now + 2 ^ 64 - before) * 8000) / milis in
      let now = record s.stats {
        token_out_tps = rate (u32 (s.stats.token_out_sum + 2 ^ 32 - pre.token_out_sum)) milis;
        network_in_bps = per_second s.stats.network_in_bytes pre.network_in_bytes;
        network_out_bps = per_second s.stats.network_out_bytes pre.network_out_bytes;
      } in
      if leb 1000 milis
      then record s { stats = now; last_updated_ms = now_ms; last_updated_stats = now }
      else s

  unfoldable pub session_ids : ModelService Node S L F → List ℕ
  session_ids s = keys s.sessions
