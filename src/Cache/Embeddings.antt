-- ===== src/Cache/Embeddings.antt =====
-- Embeddings that the cache returns.
use ai_backend_api.Base.{
  ◌≡◌, refl, ap, some, arith, if◌then◌else◌, Bool-cases, inl, inr, length, ==_iff,
}
use ai_backend_api.Base.Text.{Text, text_eq}
use ai_backend_api.Base.Dict.{get, get-put}
use ai_backend_api.Base.Result.{ok}
use ai_backend_api.Entity.Values.{EmbeddingVector, embedding_vector, IsWellSized}
use ai_backend_api.Cache.{
  CacheLibrary, Redis, Parsed, embedding_fields, get_bytes, set_bytes, get_json, set_json,
  embedding_key, get_embedding, set_embedding, vector_of_parsed, or_validation_error,
}

-- What is relied on: `json.loads` reads the objects that `json.dumps` has written for embeddings.
abbrev pub IsCodec : CacheLibrary → Type 0
IsCodec library =
    (e : EmbeddingVector)
    → library.loads (library.dumps (embedding_fields e)) ≡ some (Parsed.fields (embedding_fields e))

embedding_vector-again :
    (e : EmbeddingVector) → IsWellSized e → embedding_vector e.values e.model e.dimensions ≡ ok e
unfolding embedding_vector
embedding_vector-again e h = ground (arith, ==_iff (length e.values) e.dimensions)

module _ (library : CacheLibrary) where
  parsed-again :
      (e : EmbeddingVector)
      → IsWellSized e
      → vector_of_parsed library (some (Parsed.fields (embedding_fields e))) ≡ ok (some e)
  unfolding get vector_of_parsed embedding_vector
  parsed-again e sized = ap or_validation_error (embedding_vector-again e sized)

  -- An embedding that was set is returned as it was, under each text whose key is the same; under
  -- any other key the cache answers as before.
  pub get-set_embedding :
      (t model t' model' : Text) (e : EmbeddingVector) (redis : Redis)
      → IsCodec library
      → IsWellSized e
      → get_embedding library t' model' (set_embedding library t model e redis) ≡ (
          if text_eq (embedding_key library t model) (embedding_key library t' model')
          then ok (some e)
          else get_embedding library t' model' redis)
  unfolding get_embedding set_embedding get_json set_json get_bytes set_bytes
  get-set_embedding t model t' model' e redis codec sized =
      elim (Bool-cases
        (text_eq (embedding_key library t model) (embedding_key library t' model'))) [
          | inl same ↦ rw (get-put, same) (rw (codec e) (parsed-again e sized))
          | inr other ↦ rw (get-put, other) refl
        ]
