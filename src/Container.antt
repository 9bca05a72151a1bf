-- ===== src/Container.antt =====
-- app/container.py: the settings that the parts get.
pub mod Accepted
use ai_backend_api.Base.{ℕ, Option, List, Bool}
use ai_backend_api.Base.Text.{Text, codes}
use ai_backend_api.Chunking.Data.{ChunkData}
use ai_backend_api.Chunking.Token
use ai_backend_api.Base.Result.{Result}
use ai_backend_api.Errors.{Exc}
use ai_backend_api.Entity.Chat.{SearchResult}
use ai_backend_api.RateLimit
use ai_backend_api.Service.Context
use ai_backend_api.Settings.{Settings}

-- How the document processing splits a text.
unfoldable pub split_document :
    Settings → Token.Encoder → Text → Result Exc (Option (List ChunkData))
split_document settings encoder content =
    Token.chunk encoder content settings.chunking.chunk_size settings.chunking.chunk_overlap

-- How the chat builds its context; its call leaves the model at the default of the method.
unfoldable pub chat_context :
    Settings → (Text → Text → ℕ) → List SearchResult → Text × List SearchResult
chat_context settings count_tokens results =
    Context.build_context count_tokens settings.rag.max_context_tokens settings.rag.score_threshold
      (codes "gpt-4o") results

-- How the middleware asks the limiter.
unfoldable pub limiter :
    Settings → (redis : RateLimit.Redis) → Text → ℕ → ℕ → redis.State → Bool × redis.State
limiter settings redis key now draw s =
    RateLimit.is_allowed redis settings.rate_limit.requests_per_minute key now draw s
