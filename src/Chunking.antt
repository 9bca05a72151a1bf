-- ===== src/Chunking.antt =====
-- app/domain/services: the two chunking strategies.
pub mod Data
pub mod Token
pub mod Simple
