-- ===== src/Settings.antt =====
-- app/core/config/settings.py. How the environment is read is pydantic's part: a value of these
-- records is what it has read, before the constraints and the validator. The temperature and the
-- score threshold are in millionths.
pub mod Secrets
use ai_backend_api.Base.{
  ℕ, Bool, true, false, not, ◌&&◌, Option, none, some, List, [], ◌∷◌, ◌++◌, if◌then◌else◌, leb,
}
use ai_backend_api.Base.Text.{Text, codes, text_eq, show}
use ai_backend_api.Base.Dict.{Dict, get, put}
use ai_backend_api.Base.Result.{Result, ok, err}
use ai_backend_api.Errors.{Exc}

-- A `SecretStr`, by its value.
pub record Secret : Type 0 where
  pub value : Text

pub record OpenaiGroup : Type 0 where
  pub api_key : Secret
  pub model : Text
  pub embedding_model : Text
  pub max_retries : ℕ
  pub embedding_dimensions : ℕ
  pub max_tokens : ℕ
  pub temperature : ℕ

pub record RedisGroup : Type 0 where
  pub host : Text
  pub port : ℕ
  pub db : ℕ
  pub password : Option Secret

pub record DatabaseGroup : Type 0 where
  pub host : Text
  pub port : ℕ
  pub user : Text
  pub password : Secret
  pub db_name : Text
  pub pool_min_size : ℕ
  pub pool_max_size : ℕ

pub record QdrantGroup : Type 0 where
  pub host : Text
  pub port : ℕ
  pub grpc_port : ℕ
  pub collection_name : Text
  pub prefer_grpc : Bool

pub record ChunkingGroup : Type 0 where
  pub chunk_size : ℕ
  pub chunk_overlap : ℕ

pub record RateLimitGroup : Type 0 where
  pub requests_per_minute : ℕ
  pub burst_size : ℕ

pub record WorkerGroup : Type 0 where
  pub max_jobs : ℕ
  pub job_timeout : ℕ
  pub max_retries : ℕ
  pub retry_delay : ℕ

pub record RagGroup : Type 0 where
  pub score_threshold : ℕ
  pub max_context_tokens : ℕ
  pub top_k : ℕ

pub record Settings : Type 0 where
  pub app_name : Text
  pub debug : Bool
  pub log_level : Text
  pub api_key : Secret
  pub openai : OpenaiGroup
  pub redis : RedisGroup
  pub database : DatabaseGroup
  pub qdrant : QdrantGroup
  pub chunking : ChunkingGroup
  pub rate_limit : RateLimitGroup
  pub worker : WorkerGroup
  pub rag : RagGroup

-- `bool(…)` of an optional secret: a SecretStr has the length of its value.
abbrev pub is_given : Option Secret → Bool
is_given none = false
is_given (some s) = elim s.value [ [] ↦ false | _ ∷ _ ↦ true ]

abbrev address : Text → ℕ → Text → Text
address host port path = host ++ (codes ":" ++ (show port ++ (codes "/" ++ path)))

abbrev password_part : Option Secret → Text
password_part none = []
password_part (some s) = elim s.value [ [] ↦ [] | c ∷ cs ↦ codes ":" ++ ((c ∷ cs) ++ codes "@") ]

-- `RedisSettings.url`
unfoldable pub redis_url : RedisGroup → Text
redis_url r = codes "redis://" ++ (password_part r.password ++ address r.host r.port (show r.db))

-- `DatabaseSettings.url`
unfoldable pub database_url : DatabaseGroup → Text
database_url d =
    codes "postgresql://"
    ++ (d.user
        ++ (codes ":" ++ (d.password.value ++ (codes "@" ++ address d.host d.port d.db_name))))

abbrev between : ℕ → ℕ → ℕ → Bool
between low high n = leb low n && leb n high

-- The constraints of the fields.
unfoldable pub in_range : Settings → Bool
in_range s =
    between 100 8192 s.chunking.chunk_size
    && between 0 512 s.chunking.chunk_overlap
    && leb 1 s.rate_limit.requests_per_minute
    && leb 1 s.rate_limit.burst_size
    && leb s.rag.score_threshold 1_000_000
    && leb 1000 s.rag.max_context_tokens
    && between 1 50 s.rag.top_k

abbrev pub sentinel : Text
sentinel = codes "change-me-in-production"

-- `validate_secrets`
unfoldable pub validate_secrets : Settings → Result Exc Settings
validate_secrets s =
    if not s.debug && text_eq s.api_key.value sentinel
    then err (
        Exc.validation_error (
          codes "API_KEY must be set to a secure value in production. "
          ++ codes "Set DEBUG=true to bypass this check during development."))
    else ok s

-- `Settings()`; pydantic's text about a field out of range is a parameter.
unfoldable pub settings_new : Text → Settings → Result Exc Settings
unfolding in_range validate_secrets
settings_new out_of_range s =
    if in_range s then validate_secrets s else err (Exc.validation_error out_of_range)

-- What `model_dump` puts under a field: secrets stay SecretStr objects.
pub data Leaf : Type 0 where
  text : Text → Leaf
  number : ℕ → Leaf
  flag : Bool → Leaf
  secret : Secret → Leaf
  nothing : Leaf

pub data Item : Type 0 where
  leaf : Leaf → Item
  group : Dict Leaf → Item

abbrev optional_secret : Option Secret → Leaf
optional_secret none = nothing
optional_secret (some s) = secret s

abbrev dump_openai : OpenaiGroup → Dict Leaf
dump_openai g =
    (codes "api_key", secret g.api_key)
    ∷ (codes "model", text g.model)
    ∷ (codes "embedding_model", text g.embedding_model)
    ∷ (codes "max_retries", number g.max_retries)
    ∷ (codes "embedding_dimensions", number g.embedding_dimensions)
    ∷ (codes "max_tokens", number g.max_tokens)
    ∷ (codes "temperature", number g.temperature)
    ∷ []

abbrev dump_redis : RedisGroup → Dict Leaf
dump_redis g =
    (codes "host", text g.host)
    ∷ (codes "port", number g.port)
    ∷ (codes "db", number g.db)
    ∷ (codes "password", optional_secret g.password)
    ∷ []

abbrev dump_database : DatabaseGroup → Dict Leaf
dump_database g =
    (codes "host", text g.host)
    ∷ (codes "port", number g.port)
    ∷ (codes "user", text g.user)
    ∷ (codes "password", secret g.password)
    ∷ (codes "db_name", text g.db_name)
    ∷ (codes "pool_min_size", number g.pool_min_size)
    ∷ (codes "pool_max_size", number g.pool_max_size)
    ∷ []

abbrev dump_qdrant : QdrantGroup → Dict Leaf
dump_qdrant g =
    (codes "host", text g.host)
    ∷ (codes "port", number g.port)
    ∷ (codes "grpc_port", number g.grpc_port)
    ∷ (codes "collection_name", text g.collection_name)
    ∷ (codes "prefer_grpc", flag g.prefer_grpc)
    ∷ []

abbrev dump_worker : WorkerGroup → Dict Leaf
dump_worker g =
    (codes "max_jobs", number g.max_jobs)
    ∷ (codes "job_timeout", number g.job_timeout)
    ∷ (codes "max_retries", number g.max_retries)
    ∷ (codes "retry_delay", number g.retry_delay)
    ∷ []

abbrev dump_rag : RagGroup → Dict Leaf
dump_rag g =
    (codes "score_threshold", number g.score_threshold)
    ∷ (codes "max_context_tokens", number g.max_context_tokens)
    ∷ (codes "top_k", number g.top_k)
    ∷ []

-- `model_dump()`
unfoldable pub model_dump : Settings → Dict Item
model_dump s =
    (codes "app_name", leaf (text s.app_name))
    ∷ (codes "debug", leaf (flag s.debug))
    ∷ (codes "log_level", leaf (text s.log_level))
    ∷ (codes "api_key", leaf (secret s.api_key))
    ∷ (codes "openai", group (dump_openai s.openai))
    ∷ (codes "redis", group (dump_redis s.redis))
    ∷ (codes "database", group (dump_database s.database))
    ∷ (codes "qdrant", group (dump_qdrant s.qdrant))
    ∷ (
      codes "chunking",
      group (
          (codes "chunk_size", number s.chunking.chunk_size)
          ∷ (codes "chunk_overlap", number s.chunking.chunk_overlap)
          ∷ []),
    )
    ∷ (
      codes "rate_limit",
      group (
          (codes "requests_per_minute", number s.rate_limit.requests_per_minute)
          ∷ (codes "burst_size", number s.rate_limit.burst_size)
          ∷ []),
    )
    ∷ (codes "worker", group (dump_worker s.worker))
    ∷ (codes "rag", group (dump_rag s.rag))
    ∷ []

-- `data[name]`, which is a group for the names used here.
abbrev group_of : Option Item → Dict Leaf
group_of (some (group d)) = d
group_of _ = []

-- `bool(…)` of what `.get("password")` returns.
abbrev is_true : Option Leaf → Bool
is_true (some (secret s)) = is_given (some s)
is_true (some (text (c ∷ t))) = true
is_true (some (number n)) = leb 1 n
is_true (some (flag b)) = b
is_true _ = false

-- `data[name][k] = "***"`
unfoldable pub mask : Text → Text → Dict Item → Dict Item
unfolding get put
mask name k items = put items name (group (put (group_of (get items name)) k (text (codes "***"))))

unfoldable pub mask_given : Text → Text → Dict Item → Dict Item
unfolding mask get put
mask_given name k items =
    if is_true (get (group_of (get items name)) k) then mask name k items else items

-- `to_safe_dict`
unfoldable pub to_safe_dict : Settings → Dict Item
unfolding model_dump mask mask_given get put
to_safe_dict s = mask_given (codes "database") (codes "password") (
    mask_given (codes "redis") (codes "password") (
      mask (codes "openai") (codes "api_key")
        (put (model_dump s) (codes "api_key") (leaf (text (codes "***"))))))
