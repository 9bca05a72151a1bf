-- ===== src/UseCase.antt =====
-- The use cases of app/application/use_cases.
pub mod Process
pub mod Search
pub mod Chat
pub mod Ingest
pub mod Task
