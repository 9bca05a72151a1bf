-- ===== src/Tests/Providers.antt =====
-- Examples on the batches of embeddings.
use ai_backend_api.Base.{ℕ, true, false, ◌≡◌, refl, Option, none, some, List, [], ◌∷◌, map, length}
use ai_backend_api.Errors.{Exc}
use ai_backend_api.Base.{◌++◌, take, drop, take-append, drop-append}
use ai_backend_api.Base.Dict.{Dict, get, put}
use ai_backend_api.Entity.Values.{IsWellSized}
use ai_backend_api.Cache.{
  CacheLibrary, Json, Parsed, Redis, embedding_fields, embedding_key, get_embedding, set_embedding,
  get_json, set_json, get_bytes, set_bytes,
}
use ai_backend_api.Cache.Embeddings.{IsCodec, get-set_embedding}
use ai_backend_api.Provider.Embedding.Cached.{cached, lookups, embed_batch_cached}
use ai_backend_api.Provider.Embedding.Cached.Again.{IsApart, embed_batch-again}
use ai_backend_api.Provider.Chat.{OpenaiSettings, ApiFailure}
use ai_backend_api.Base.Text.{Text, codes}
use ai_backend_api.Base.Result.{ok, err}
use ai_backend_api.Entity.Values.{EmbeddingVector, embedding_vector}
use ai_backend_api.Provider.Embedding.{ApiOutcome, call_openai, vectors_of}

abbrev vector : List ℕ → EmbeddingVector
vector values = record { values = values; model = codes "m"; dimensions = 1 }

abbrev fresh : Text → EmbeddingVector
fresh t = vector (length t ∷ [])

abbrev service : List Text → ApiOutcome
service asked = ApiOutcome.embedded (map (λ t. length t ∷ []) asked)

vectors_of-service :
    (asked : List Text)
    → vectors_of (codes "m") 1 (map (λ t. length t ∷ []) asked) ≡ ok (map fresh asked)
unfolding vectors_of embedding_vector
vectors_of-service [] = refl
vectors_of-service (t ∷ asked) = rw (vectors_of-service asked) refl

call_openai-service :
    (asked : List Text) → call_openai (codes "m") 1 (service asked) ≡ ok (map fresh asked)
unfolding call_openai
call_openai-service asked = vectors_of-service asked

-- One text for an embedding: its dimensions, the length of its model, the model, and the values.
abbrev write_fields : Option Json → Option Json → Option Json → Text
write_fields (some (Json.numbers values)) (some (Json.string model))
      (some (Json.number dimensions)) =
    dimensions ∷ length model ∷ (model ++ values)
write_fields _ _ _ = []

write : Dict Json → Text
unfolding get
write d = write_fields (get d (codes "values")) (get d (codes "model")) (get d (codes "dimensions"))

abbrev read : Text → Option Parsed
read (dimensions ∷ n ∷ rest) = some (
    Parsed.fields (
      embedding_fields
        (record { values = drop n rest; model = take n rest; dimensions = dimensions })))
read _ = none

abbrev library : CacheLibrary
library = record {
  dumps = write;
  loads = read;
  sha256_hex = λ t. t;
  coerce = λ v m d. err (Exc.validation_error []);
}

library-IsCodec : IsCodec library
unfolding write get
library-IsCodec e = rw (take-append e.model e.values, drop-append e.model e.values) refl

fresh-IsWellSized : (t : Text) → IsWellSized (fresh t)
fresh-IsWellSized t = refl

get-set_embedding_example :
    get_embedding library
      (codes "b")
      (codes "m")
      (set_embedding library (codes "a") (codes "m") (fresh (codes "a")) [])
    ≡ ok none
unfolding get_embedding embedding_key get get_json get_bytes
get-set_embedding_example =
    get-set_embedding library (codes "a") (codes "m") (codes "b") (codes "m") (fresh (codes "a")) []
      library-IsCodec (fresh-IsWellSized (codes "a"))

-- "b" is in the cache.
abbrev held : Redis
held = set_embedding library (codes "b") (codes "m") (vector (77 ∷ [])) []

abbrev batch : List Text
batch = codes "a" ∷ codes "b" ∷ []

held-lookups : lookups library (codes "m") batch held ≡ ok tt
unfolding lookups get_embedding set_embedding embedding_key get put get_json set_json get_bytes
    set_bytes embedding_vector write
held-lookups = refl

batch-IsApart : IsApart library (codes "m") batch
unfolding embedding_key
batch-IsApart = ((λ e. cc, (λ e. cc, tt)), ((λ e. cc, (λ e. cc, tt)), tt))

embed_batch-again_example :
    let first = embed_batch_cached library (codes "m") (λ t r. true) 1 service batch held in
    (first.0 ≡ ok (some (fresh (codes "a")) ∷ some (vector (77 ∷ [])) ∷ []))
    × (embed_batch_cached library
          (codes "m")
          (λ t r. false)
          1
          (λ _. ApiOutcome.api_failed (codes "down"))
          batch
          first.1
        ≡ first)
unfolding cached get_embedding set_embedding embedding_key get put get_json set_json get_bytes
    set_bytes embedding_vector write
embed_batch-again_example =
    embed_batch-again library (codes "m") fresh (λ t r. true) (λ t r. refl) 1 service
      (λ _. ApiOutcome.api_failed (codes "down")) (λ t r. false) batch held library-IsCodec
      fresh-IsWellSized call_openai-service held-lookups batch-IsApart

abbrev settings : OpenaiSettings
settings = record { model = codes "gpt-4o"; temperature = 700_000; max_tokens = 4096 }

abbrev too_long : ApiFailure
too_long = ApiFailure.bad_request (codes "This model's Maximum Context Length is 8192 tokens")

abbrev chunks : List (List (Option Text))
chunks = (some (codes "he") ∷ []) ∷ [] ∷ (none ∷ []) ∷ (some [] ∷ []) ∷ (some (codes "y") ∷ []) ∷ []
