-- ===== src/Contract/Layers.antt =====
-- post_start of crates/contract/src/lib.rs: what the workers of a chain write into the answer that
-- goes back to the root, which makes the on-chain session of it.
use decentralized_llm_infere.Base.{
  ℕ, ◌+◌, ◌-◌, ◌<◌, ◌≡◌, ◌≢◌, ◌^◌, refl, sym, false, some, List, [], ◌∷◌, ◌++◌, ◌==◌, u32, length,
  length-append, arith, Outcome, done, ◌>>=◌,
}
use mathlib.Core.List.{append_assoc, append-nil}
use decentralized_llm_infere.Protocol.Llm.{StartReq, StartRes}
use decentralized_llm_infere.Contract.Validator.{Crypto}
use decentralized_llm_infere.Contract.Service.{
  OnChainService, OnChainServiceMetadata, Chain, post_start, joined,
}

-- A worker with the start request it handles.
pub record Joining : Type 0 where
  pub req : StartReq
  pub worker : OnChainService
  pub address : ℕ

abbrev pub total : List ℕ → ℕ
total [] = 0
total (n ∷ ns) = n + total ns

total-append : (ms ns : List ℕ) → total (ms ++ ns) ≡ total ms + total ns
total-append [] ns = omega arith
total-append (m ∷ ms) ns = omega (arith, total-append ms ns)

-- The workers' layers join without a gap, from layer `from` to before layer `to`.
abbrev pub Joined : ℕ → ℕ → List Joining → Type 0
Joined from to [] = from ≡ to
Joined from to (w ∷ ws) =
    (w.req.from_layer ≡ from)
    × (from < w.worker.layers_end)
    × (w.worker.layers_end < 2 ^ 32 - 1)
    × (w.req.chain_index ≢ 0)
    × Joined w.worker.layers_end to ws

-- The addresses in the order in which the answer comes by.
abbrev pub homeward : List Joining → List ℕ
homeward [] = []
homeward (w ∷ ws) = homeward ws ++ w.address ∷ []

module _ (crypto : Crypto) (chain_at : ℕ → Chain) where
  -- The answer goes from the last worker to the first one.
  abbrev pub go_home : List Joining → StartRes → Outcome StartRes
  go_home [] res = done res
  go_home (w ∷ ws) res = go_home ws res >>= λ r.
      post_start crypto (chain_at w.address) w.req r w.worker >>= λ out. done out.0

  module _
      (bincode : (a b : ℕ) (m : OnChainServiceMetadata)
        → (chain_at a).deserialize ((chain_at b).serialize m) ≡ some m)
      (addresses : (a : ℕ) → (chain_at a).address ≡ a) where
    -- Let the workers of a chain, none of them the root, hold the layers from one to before another
    -- without a gap, let their ends be below 2^32 - 1, and let bincode read back what it writes.
    -- When an answer that can be read has come back through all of them, it names every worker, the
    -- last one first, and the numbers of layers in it have grown by the number of the chain's
    -- layers and by one more for each worker.
    pub post_start-total :
        (ws : List Joining) (from to : ℕ) (res : StartRes) (m : OnChainServiceMetadata)
        → Joined from to ws
        → ((a : ℕ) → (chain_at a).deserialize res.metadata ≡ some m)
        → (res' : StartRes) × (m' : OnChainServiceMetadata) × (go_home ws res ≡ done res')
          × (res'.success ≡ res.success)
          × ((a : ℕ) → (chain_at a).deserialize res'.metadata ≡ some m')
          × (m'.addresses ≡ m.addresses ++ homeward ws)
          × (length m'.layers ≡ length m.layers + length ws)
          × (total m'.layers + from ≡ total m.layers + to + length ws)
          × (m'.root_address ≡ m.root_address)
    unfolding post_start joined
    post_start-total [] from to res m chain parsed =
        (res, m, refl, refl, parsed, sym (append-nil m.addresses), omega arith, omega arith, refl)
    post_start-total (w ∷ ws) from to res m (start, wide, small, deep, chain) parsed =
        let (res1, m1, run, success, parsed1, names, count, layers, root) =
          post_start-total ws w.worker.layers_end to res m chain parsed in
        let inner : (w.req.chain_index == 0) ≡ false = ground arith in
        let m2 = joined crypto (chain_at w.address) w.req m1 w.worker in
        let res2 : StartRes = record res1 { metadata = (chain_at w.address).serialize m2 } in
        let mine = u32 (w.worker.layers_end + 2 ^ 32 - w.req.from_layer + 1) in
        let own : mine ≡ w.worker.layers_end - from + 1 = omega arith in
        (
          res2,
          m2,
          rw (run, parsed1 w.address, inner, post_start) refl,
          success,
          λ a. bincode a w.address m2,
          rw (names, addresses w.address) (append_assoc m.addresses (homeward ws) (w.address ∷ [])),
          omega (arith, count, length-append m1.layers (mine ∷ [])),
          omega (arith, layers, own, total-append m1.layers (mine ∷ [])),
          root,
        )
