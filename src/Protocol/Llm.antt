-- ===== src/Protocol/Llm.antt =====
-- The messages of crates/protocol/protobuf/llm.proto, as the code generated from them declares
-- them: bytes are lists of numbers.
use decentralized_llm_infere.Base.{ℕ, Bool, List}

pub record StartReq : Type 0 where
  pub session : ℕ
  pub chat_id : ℕ
  pub from_layer : ℕ
  pub metadata : List ℕ
  pub chain_index : ℕ
  pub max_tokens : ℕ

pub record StartRes : Type 0 where
  pub success : Bool
  pub metadata : List ℕ

pub record ForwardReq : Type 0 where
  pub session : ℕ
  pub step : ℕ
  pub embedding : List ℕ
  pub index_pos : ℕ
  pub seq_len : ℕ
  pub metadata : List ℕ
  pub chain_index : ℕ

pub record ForwardRes : Type 0 where
  pub success : Bool
  pub embedding : List ℕ
  pub metadata : List ℕ

pub record EndReq : Type 0 where
  pub session : ℕ
  pub metadata : List ℕ
  pub chain_index : ℕ

pub record EndRes : Type 0 where
  pub success : Bool
  pub metadata : List ℕ
