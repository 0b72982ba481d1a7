-- ===== src/Registry.antt =====
-- crates/registry: the registry server, and what a worker asks of it.
pub mod Selection
pub mod Sessions
pub mod Client
pub mod Server
