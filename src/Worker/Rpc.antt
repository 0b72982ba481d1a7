-- ===== src/Worker/Rpc.antt =====
-- RpcClientRx of crates/worker/src/rpc.rs: the numbers of the requests and the callers that wait.
-- A one-shot channel is the number of its caller.
use decentralized_llm_infere.Base.{
  ℕ, ◌+◌, Bool, Option, none, some, List, [], if◌then◌else◌, String, HashMap, get, insert, remove,
  nat_key, u32, Outcome, done, panicked,
}

-- `worker::event::RpcReq` and `worker::event::RpcRes`
pub record RpcReq : Type 0 where
  pub seq : ℕ
  pub cmd : String
  pub payload : List ℕ

pub record RpcRes : Type 0 where
  pub seq : ℕ
  pub success : Bool
  pub payload : List ℕ

pub record RpcClientRx : Type 0 where
  pub seq_seed : ℕ
  pub waits : HashMap ℕ ℕ

-- `create_rpc`
unfoldable pub new : RpcClientRx
new = record { seq_seed = 0; waits = [] }

-- The caller that the answer goes to. It panics where this one waits no longer, as those do that
-- are `gone`.
unfoldable pub on_res :
    (gone : ℕ → Bool) → RpcRes → RpcClientRx → Outcome (Option (ℕ × RpcRes) × RpcClientRx)
on_res gone res c = elim (get res.seq c.waits) [
  | none ↦ done (none, c)
  | some tx ↦
      if gone tx
      then panicked
      else done (some (tx, res), record c { waits = remove res.seq c.waits })
]

-- `recv`, when the caller `tx` has asked for a request.
unfoldable pub recv :
    {Node : Type 0} → Node → String → List ℕ → ℕ → RpcClientRx → (Node × RpcReq) × RpcClientRx
recv dest cmd payload tx c =
    let seq = u32 (c.seq_seed + 1) in
    (
      (dest, record { seq = seq; cmd = cmd; payload = payload }),
      record { seq_seed = u32 (c.seq_seed + 1); waits = insert seq tx c.waits },
    )

-- What the caller makes of an answer.
unfoldable pub request : {Res : Type 0} → (List ℕ → Option Res) → RpcRes → Option Res
request decode res = if res.success then decode res.payload else none
