-- ===== src/OpenaiHttp.antt =====
-- crates/openai-http: the web interface of a chat. The answer's text comes over a channel and is read
-- as a stream of bytes (api_chat.rs).
pub mod Reader
pub mod Completions
pub mod Store
