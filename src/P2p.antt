-- ===== src/P2p.antt =====
-- crates/p2p-network: the connections between peers.
pub mod Buffer
pub mod SharedPort
pub mod Node
pub mod RemoteConn
