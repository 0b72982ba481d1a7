-- ===== src/Worker.antt =====
-- crates/worker: the calls between workers, and the service that runs a node's layers.
pub mod Rpc
pub mod Matching
pub mod ModelService
pub mod Handlers
pub mod Requests
pub mod Pipeline
pub mod Communication
