-- ===== src/Tests.antt =====
-- Concrete inputs at which the theorems of the library hold, and the values they use.
mod Entities
mod Chunks
mod Pipeline
mod Answers
mod Stores
mod Web
mod Providers
mod Workers
mod Tables
mod Routes
mod Configuration
mod Vectors
mod Counting
mod Stopping
mod Remembered
