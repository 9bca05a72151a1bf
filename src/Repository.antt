-- ===== src/Repository.antt =====
-- The repositories of app/infrastructure/repositories.
pub mod MemoryDocument
pub mod MemoryChunk
pub mod Tenants
pub mod ChatHistory
pub mod Documents
