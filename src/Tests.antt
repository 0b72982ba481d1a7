-- ===== src/Tests.antt =====
-- The development's theorems at concrete inputs.
mod Packing
mod Router
mod Registry
mod Worker
mod Contract
mod Network
mod Peers
mod Communication
mod Chat
mod LlamaChat
mod Phi3Chat
mod Control
mod Layers
mod Air
mod Streams
mod RemoteConn
mod Completions
