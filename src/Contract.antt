-- ===== src/Contract.antt =====
-- crates/contract: the counts of tokens spent and earned, the signed checkpoints, and the on-chain
-- usage service that the model service calls.
pub mod Storage
pub mod Validator
pub mod Service
pub mod Earning
pub mod Rounds
pub mod Layers
