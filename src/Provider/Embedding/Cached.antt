-- ===== src/Provider/Embedding/Cached.antt =====
-- `embed_batch` of app/infrastructure/llm/openai_embedding.py with the cache of
-- app/infrastructure/cache/redis_cache.py: the look-ups, the batch, and the writes of what is fresh.
pub mod Uncached
pub mod Again
use ai_backend_api.Base.{ℕ, Bool, if◌then◌else◌, Option, none, some, List, [], ◌∷◌, map}
use ai_backend_api.Base.Text.{Text}
use ai_backend_api.Base.Result.{Result, ok, err, ◌>>=◌}
use ai_backend_api.Cache.{CacheLibrary, Redis, get_embedding, set_embedding}
use ai_backend_api.Entity.Values.{EmbeddingVector}
use ai_backend_api.Errors.{Exc}
use ai_backend_api.Provider.Embedding.{ApiOutcome, call_openai, uncached_from, embed_batch}

abbrev pub or_none : Result Exc (Option EmbeddingVector) → Option EmbeddingVector
or_none (ok o) = o
or_none (err e) = none

module _ (library : CacheLibrary) (model : Text) where
  -- What a look-up that does not raise finds.
  unfoldable pub cached : Redis → Text → Option EmbeddingVector
  cached redis t = or_none (get_embedding library t model redis)

  -- The first exception of the look-ups, in the order of the texts.
  unfoldable pub lookups : List Text → Redis → Result Exc (Unit {0})
  lookups [] redis = ok tt
  lookups (t ∷ ts) redis = get_embedding library t model redis >>= λ o. lookups ts redis

  -- The `set_embedding` of the loop over what was not cached, which stops at the shorter list. A
  -- write that Redis does not accept raises; that is caught, and the loop goes on.
  unfoldable pub store_fresh :
      (accepts : Text → Redis → Bool) → List (ℕ × Text) → List EmbeddingVector → Redis → Redis
  store_fresh accepts ((i, t) ∷ us) (v ∷ vs) redis =
      store_fresh accepts us vs
        (if accepts t redis then set_embedding library t model v redis else redis)
  store_fresh accepts _ _ redis = redis

  abbrev pub after_call :
      (Text → Redis → Bool) → List (ℕ × Text) → Result Exc (List EmbeddingVector) → Redis → Redis
  unfolding store_fresh
  after_call accepts us (err e) redis = redis
  after_call accepts us (ok vs) redis = store_fresh accepts us vs redis

  abbrev pub after_lookups :
      (Text → Redis → Bool)
      → ℕ
      → (List Text → ApiOutcome)
      → List Text
      → Redis
      → Result Exc (Unit {0})
      → Result Exc (List (Option EmbeddingVector)) × Redis
  unfolding store_fresh cached embed_batch uncached_from call_openai
  after_lookups accepts dimensions api texts redis (err e) = (err e, redis)
  after_lookups accepts dimensions api texts redis (ok _) = (
    embed_batch (cached redis) model dimensions api texts,
    (let us = uncached_from (cached redis) 0 texts in
        after_call accepts us (call_openai model dimensions (api (map (λ u. u.1) us))) redis),
  )

  -- `embed_batch` of the service with a cache, of which `accepts` says whether it takes a write:
  -- its result and what Redis holds then.
  unfoldable pub embed_batch_cached :
      (accepts : Text → Redis → Bool)
      → ℕ
      → (List Text → ApiOutcome)
      → List Text
      → Redis
      → Result Exc (List (Option EmbeddingVector)) × Redis
  unfolding lookups cached store_fresh embed_batch uncached_from call_openai
  embed_batch_cached accepts dimensions api texts redis =
      after_lookups accepts dimensions api texts redis (lookups texts redis)
