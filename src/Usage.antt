-- ===== src/Usage.antt =====
-- crates/usage-service/src/lib.rs: the trait that the model service calls before and after it
-- handles a request, and the service that does nothing. A handler is a step on the service's
-- state; an `Err` is `none`, and a panic is `panicked`.
use decentralized_llm_infere.Base.{ℕ, Option, some, Outcome, done}
use decentralized_llm_infere.Protocol.Llm.{
  StartReq, StartRes, ForwardReq, ForwardRes, EndReq, EndRes,
}

pub record WorkerUsageService (S : Type 0) : Type 0 where
  pub pre_start : StartReq → S → Outcome (Option StartReq × S)
  pub post_start : StartReq → StartRes → S → Outcome (StartRes × S)
  pub pre_end : ℕ → EndReq → S → Outcome (Option EndReq × S)
  pub post_end : ℕ → EndReq → EndRes → S → Outcome (EndRes × S)
  pub pre_forward : ℕ → ForwardReq → S → Outcome (Option ForwardReq × S)
  pub post_forward : ℕ → ForwardReq → ForwardRes → S → Outcome (ForwardRes × S)

-- `PassthroughUsageService`
unfoldable pub passthrough : WorkerUsageService Unit
passthrough = record {
  pre_start = λ req s. done (some req, s);
  post_start = λ req res s. done (res, s);
  pre_end = λ chat_id req s. done (some req, s);
  post_end = λ chat_id req res s. done (res, s);
  pre_forward = λ chat_id req s. done (some req, s);
  post_forward = λ chat_id req res s. done (res, s);
}
