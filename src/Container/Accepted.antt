-- ===== src/Container/Accepted.antt =====
-- What holds of the parts under settings that were accepted.
use ai_backend_api.Base.{ℕ, lt→ltb, ◌≤◌, ◌≡◌, ◌∙◌, ap, filter_by, [], true, some, List, min, arith}
use ai_backend_api.Base.Text.{Text, codes, join}
use ai_backend_api.Base.Result.{ok}
use ai_backend_api.Chunking.Data.{ChunkData}
use ai_backend_api.Chunking.Token.{Encoder, max_tokens}
use ai_backend_api.Chunking.Token.Chunks.{AreChunks, chunk-AreChunks}
use ai_backend_api.Chunking.Token.Windows.{chunk-total}
use ai_backend_api.Container.{split_document, chat_context, limiter}
use ai_backend_api.Entity.Chat.{SearchResult}
use ai_backend_api.RateLimit.{Redis, IsRedis, rate_key}
use ai_backend_api.RateLimit.Window.{Reach, is_allowed-window}
use ai_backend_api.Service.Context.{tokens, build_context-IsFit}
use ai_backend_api.Settings.{Settings, settings_new, in_range}
use ai_backend_api.Settings.Secrets.{settings_new_iff}

in_range-bounds :
    (s : Settings)
    → in_range s ≡ true
    → (100 ≤ s.chunking.chunk_size)
      × (1 ≤ s.rate_limit.requests_per_minute)
      × (1000 ≤ s.rag.max_context_tokens)
unfolding in_range
in_range-bounds s h = ground (arith, h)

-- Under settings that were accepted, every document that the encoder can encode is split into
-- chunks, each of at least one token and of at most the configured size and 8000; the blocks of a
-- chat's context have at most the configured number of tokens, which is 1000 at least; and a key
-- without requests in Redis is allowed its first one.
pub settings_new-serves :
    (out_of_range : Text) (given s : Settings) (encoder : Encoder) (content : Text)
    (token_ids : List ℕ) (count_tokens : Text → Text → ℕ) (results : List SearchResult)
    (redis : Redis) (laws : IsRedis redis) (key : Text) (now draw : ℕ) (r : redis.State)
    → settings_new out_of_range given ≡ ok s
    → encoder.encode content ≡ ok token_ids
    → laws.members (rate_key key) r ≡ []
    → redis.available r ≡ true
    → ((chunks : List ChunkData) × (split_document s encoder content ≡ ok (some chunks))
        × AreChunks (min s.chunking.chunk_size max_tokens) 0 chunks)
      × ((blocks : List Text) × ((chat_context s count_tokens results).0
            ≡ join (codes "\n\n") blocks)
          × (tokens count_tokens s.rag.max_context_tokens s.rag.score_threshold
                (codes "gpt-4o")
                blocks
              ≤ s.rag.max_context_tokens)
          × (1000 ≤ s.rag.max_context_tokens))
      × ((limiter s redis key now draw r).0 ≡ true)
unfolding split_document chat_context limiter filter_by
settings_new-serves out_of_range given s encoder content token_ids count_tokens results redis laws
      key now draw r accepted encodes empty up =
    let (same, ranges, _) = (settings_new_iff out_of_range given).0 s accepted in
    let (size, requests, budget) = in_range-bounds s (ap in_range same ∙ ranges) in
    let (_, _, splits) =
      chunk-total encoder content s.chunking.chunk_size s.chunking.chunk_overlap
        (omega (arith, size)) in
    let (chunks, split) = splits token_ids encodes in
    let (blocks, text, _, fits) =
      build_context-IsFit count_tokens s.rag.max_context_tokens s.rag.score_threshold
        (codes "gpt-4o") results in
    (
      (
        chunks,
        split,
        chunk-AreChunks encoder content s.chunking.chunk_size s.chunking.chunk_overlap chunks
            (omega (arith, size)) split,
      ),
      (blocks, text, fits, budget),
      (is_allowed-window redis laws s.rate_limit.requests_per_minute key now draw
            (Reach.start empty) (omega arith) up).0
          ∙ lt→ltb 0 s.rate_limit.requests_per_minute (omega (arith, requests)),
    )
