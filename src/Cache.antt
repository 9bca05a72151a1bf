-- ===== src/Cache.antt =====
-- app/infrastructure/cache/redis_cache.py. Redis keeps a value with its time to live under a key;
-- that an entry expires is a step of its own. `json` and SHA-256 are parameters.
pub mod Embeddings
use ai_backend_api.Base.{ℕ, ◌<◌, Bool, true, false, Option, none, some, List, [], ◌∷◌, ◌++◌, take}
use ai_backend_api.Base.Text.{Text, codes}
use ai_backend_api.Base.Dict.{Dict, get, put, remove, has}
use ai_backend_api.Base.Result.{Result, ok, err, ◌>>=◌}
use ai_backend_api.Entity.Values.{EmbeddingVector, embedding_vector}
use ai_backend_api.Errors.{Exc}

-- A field of a JSON object, as far as the cache tells them apart.
pub data Json : Type 0 where
  string : Text → Json
  number : ℕ → Json
  numbers : List ℕ → Json
  other : Text → Json

-- What `json.loads` returns.
pub data Parsed : Type 0 where
  fields : Dict Json → Parsed
  no_object : Text → Parsed

-- `json.dumps(…).encode("utf-8")`, `json.loads` (None where it raises JSONDecodeError), `hexdigest`
-- of SHA-256, and what `tuple` and pydantic make of fields of other kinds than the cache writes.
pub record CacheLibrary : Type 0 where
  pub dumps : Dict Json → Text
  pub loads : Text → Option Parsed
  pub sha256_hex : Text → Text
  pub coerce : Json → Json → Json → Result Exc EmbeddingVector

pub record Entry : Type 0 where
  pub value : Text
  pub ttl_seconds : ℕ

-- The keys of Redis.
abbrev pub Redis : Type 0
Redis = Dict Entry

abbrev pub value_of : Option Entry → Option Text
value_of none = none
value_of (some e) = some e.value

-- `get`
unfoldable pub get_bytes : Text → Redis → Option Text
get_bytes key redis = value_of (get redis key)

-- `set`
unfoldable pub set_bytes : Text → Text → ℕ → Redis → Redis
set_bytes key value ttl_seconds redis =
    put redis key (record { value = value; ttl_seconds = ttl_seconds })

-- `delete`
unfoldable pub delete : Text → Redis → Bool × Redis
delete key redis = (has redis key, remove redis key)

-- An entry reaches the end of its time.
unfoldable pub expire : Text → Redis → Redis
expire key redis = remove redis key

abbrev pub embedding_ttl : ℕ
embedding_ttl = 86_400

-- The dictionary that `set_embedding` writes.
abbrev pub embedding_fields : EmbeddingVector → Dict Json
embedding_fields e =
    (codes "values", Json.numbers e.values)
    ∷ (codes "model", Json.string e.model)
    ∷ (codes "dimensions", Json.number e.dimensions)
    ∷ []

-- `data[k]`
abbrev pub field_of : Text → Option Json → Result Exc Json
field_of k none = err (Exc.other_error (codes "'" ++ (k ++ codes "'")))
field_of k (some v) = ok v

abbrev pub or_validation_error : Result Text EmbeddingVector → Result Exc (Option EmbeddingVector)
or_validation_error (ok e) = ok (some e)
or_validation_error (err t) = err (Exc.validation_error t)

abbrev pub found : Result Exc EmbeddingVector → Result Exc (Option EmbeddingVector)
found (ok e) = ok (some e)
found (err e) = err e

module _ (library : CacheLibrary) where
  abbrev loaded : Option Text → Option Parsed
  loaded none = none
  loaded (some raw) = library.loads raw

  unfoldable pub get_json : Text → Redis → Option Parsed
  unfolding get_bytes
  get_json key redis = loaded (get_bytes key redis)

  unfoldable pub set_json : Text → Dict Json → ℕ → Redis → Redis
  unfolding set_bytes
  set_json key value ttl_seconds redis = set_bytes key (library.dumps value) ttl_seconds redis

  -- `_embedding_key`
  unfoldable pub embedding_key : Text → Text → Text
  embedding_key text model =
      codes "embed:" ++ (model ++ (codes ":" ++ take 16 (library.sha256_hex text)))

  -- `EmbeddingVector(…)` of the three fields
  abbrev vector_of_fields : Json → Json → Json → Result Exc (Option EmbeddingVector)
  unfolding embedding_vector
  vector_of_fields (Json.numbers values) (Json.string model) (Json.number dimensions) =
      or_validation_error (embedding_vector values model dimensions)
  vector_of_fields values model dimensions = found (library.coerce values model dimensions)

  abbrev vector_of_parsed : Option Parsed → Result Exc (Option EmbeddingVector)
  unfolding embedding_vector get
  vector_of_parsed none = ok none
  vector_of_parsed (some (Parsed.no_object text)) = err (Exc.type_error text)
  vector_of_parsed (some (Parsed.fields d)) =
      field_of (codes "values") (get d (codes "values")) >>= λ values.
      field_of (codes "model") (get d (codes "model")) >>= λ model.
      field_of (codes "dimensions") (get d (codes "dimensions")) >>= λ dimensions.
      vector_of_fields values model dimensions

  unfoldable pub get_embedding : Text → Text → Redis → Result Exc (Option EmbeddingVector)
  unfolding get_json embedding_key embedding_vector get
  get_embedding text model redis = vector_of_parsed (get_json (embedding_key text model) redis)

  unfoldable pub set_embedding : Text → Text → EmbeddingVector → Redis → Redis
  unfolding set_json embedding_key
  set_embedding text model embedding redis =
      set_json (embedding_key text model) (embedding_fields embedding) embedding_ttl redis
