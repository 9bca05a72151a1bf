-- ===== src/Provider.antt =====
-- The providers of app/infrastructure/llm.
pub mod Embedding
pub mod Chat
