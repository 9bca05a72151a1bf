-- ===== src/Chunking/Data.antt =====
-- `ChunkData` of app/domain/services/chunking_service.py: the output of a chunking strategy.
use ai_backend_api.Base.{ℕ}
use ai_backend_api.Base.Text.{Text}
use ai_backend_api.Base.Int.{ℤ}

pub record ChunkData : Type 0 where
  pub content : Text
  pub start_char : ℤ
  pub end_char : ℤ
  pub chunk_index : ℕ
  pub token_count : ℕ
