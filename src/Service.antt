-- ===== src/Service.antt =====
-- The services of app/application/services: what of the search results goes into a prompt.
pub mod Context
pub mod Prompt
