-- ===== src/Protocol/Registry.antt =====
-- crates/protocol/protobuf/registry.proto: the messages between the registry and a worker, as the
-- generated types. A `float` is a parameter.
use decentralized_llm_infere.Base.{ℕ, String, Option, List}

pub data Data : Type 0 where
  offer : (conn_id : ℕ) → (sdp : String) → Data
  answer : (conn_id : ℕ) → (sdp : String) → Data

-- `RelayData`: its `oneof` may be absent.
abbrev pub RelayData : Type 0
RelayData = Option Data

pub record Stats (F : Type 0) : Type 0 where
  pub network_in_bytes : ℕ
  pub network_out_bytes : ℕ
  pub token_in_sum : ℕ
  pub token_out_sum : ℕ
  pub network_in_bps : ℕ
  pub network_out_bps : ℕ
  pub token_in_tps : F
  pub token_out_tps : F

-- `Stats::default()`
abbrev pub no_stats : {F : Type 0} → F → Stats F
no_stats zero_float = record {
  network_in_bytes = 0;
  network_out_bytes = 0;
  token_in_sum = 0;
  token_out_sum = 0;
  network_in_bps = 0;
  network_out_bps = 0;
  token_in_tps = zero_float;
  token_out_tps = zero_float;
}

-- `to_registry::Event`
pub data ToRegistry (F : Type 0) : Type 0 where
  update : (from_layer to_layer : ℕ) → ToRegistry F
  neighbours : ToRegistry F
  relay : (dest : String) → Option RelayData → ToRegistry F
  stats : Stats F → ToRegistry F

-- `to_worker::Event`
pub data ToWorker : Type 0 where
  update : List String → ToWorker
  neighbours : List String → ToWorker
  relay : (source : String) → Option RelayData → ToWorker
