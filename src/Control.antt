-- ===== src/Control.antt =====
-- crates bin/openai-server: the control of the workers of one machine over the web.
pub mod Suggestion
pub mod Workers
