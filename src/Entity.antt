-- ===== src/Entity.antt =====
-- The entities and value objects of app/domain/entities and app/domain/value_objects. Identifiers
-- are UUIDs, written by their canonical text; the clock's reading `datetime.now(UTC)` and fresh
-- UUIDs are arguments of the methods that use them.
pub mod Values
pub mod Identity
pub mod Document
pub mod Job
pub mod Tenant
pub mod Counters
pub mod Chunk
pub mod Chat
