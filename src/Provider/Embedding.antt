-- ===== src/Provider/Embedding.antt =====
-- app/infrastructure/llm/openai_embedding.py. What the OpenAI client answers is a parameter, and so
-- is what the cache holds when the batch is looked up. The writes of the fresh vectors to the cache,
-- whose failures are swallowed, are left out.
pub mod Merge
pub mod Cached
use ai_backend_api.Base.{ℕ, zero, suc, Option, none, some, List, [], ◌∷◌, map, set}
use ai_backend_api.Base.Text.{Text, codes}
use ai_backend_api.Base.Result.{Result, ok, err, ◌>>=◌}
use ai_backend_api.Call.{Signature, check_call}
use ai_backend_api.Entity.Values.{EmbeddingVector, embedding_vector}
use ai_backend_api.Errors.{Exc}

-- How `client.embeddings.create` ends: with `response.data`, or one of the client's exceptions.
pub data ApiOutcome : Type 0 where
  embedded : List (List ℕ) → ApiOutcome
  rate_limited : (retry_after : Option ℕ) → ApiOutcome
  connection_failed api_failed : (text : Text) → ApiOutcome

-- `def __init__(self, retry_after=None)` of LLMRateLimitException
abbrev pub rate_limit_signature : Signature
rate_limit_signature = record {
  function = codes "LLMRateLimitException.__init__";
  parameters = codes "self" ∷ codes "retry_after" ∷ [];
  required = codes "self" ∷ [];
}

-- `EmbeddingVector(…)` for each item of the response
unfoldable pub vectors_of : Text → ℕ → List (List ℕ) → Result Exc (List EmbeddingVector)
unfolding embedding_vector
vectors_of model dimensions [] = ok []
vectors_of model dimensions (values ∷ items) =
    let rest = vectors_of model dimensions items in
    elim (embedding_vector values model dimensions) [
      | err text ↦ err (Exc.validation_error text)
      | ok v ↦ rest >>= λ vs. ok (v ∷ vs)
    ]

-- `_call_openai`: the exception of a rate limit is built with `provider` and `retry_after`.
unfoldable pub call_openai : Text → ℕ → ApiOutcome → Result Exc (List EmbeddingVector)
unfolding vectors_of
call_openai model dimensions (ApiOutcome.embedded items) = vectors_of model dimensions items
call_openai model dimensions (ApiOutcome.rate_limited retry_after) =
    check_call rate_limit_signature 1 (codes "provider" ∷ codes "retry_after" ∷ []) >>= λ _.
    err (Exc.llm_rate_limit retry_after)
call_openai model dimensions (ApiOutcome.connection_failed text) = err (Exc.llm_connection text)
call_openai model dimensions (ApiOutcome.api_failed text) = err (Exc.embedding_failed text)

-- What a look-up adds to the uncached texts.
abbrev pub note_uncached : Option EmbeddingVector → ℕ → Text → List (ℕ × Text) → List (ℕ × Text)
note_uncached none i t rest = (i, t) ∷ rest
note_uncached (some v) i t rest = rest

module _ (lookup : Text → Option EmbeddingVector) where
  -- `uncached_indices` with `uncached_texts`, from the i-th text on
  unfoldable pub uncached_from : ℕ → List Text → List (ℕ × Text)
  uncached_from i [] = []
  uncached_from i (t ∷ ts) = note_uncached (lookup t) i t (uncached_from (suc i) ts)

  -- The loop over `zip(uncached_indices, uncached_texts, fresh_embeddings)`, which stops at the
  -- shorter.
  unfoldable pub fill :
      List (ℕ × Text)
      → List EmbeddingVector
      → List (Option EmbeddingVector)
      → List (Option EmbeddingVector)
  fill ((i, t) ∷ rest) (v ∷ vs) results = fill rest vs (set results i (some v))
  fill _ _ results = results

  abbrev pub finish_batch :
      List Text
      → List (ℕ × Text)
      → Result Exc (List EmbeddingVector)
      → Result Exc (List (Option EmbeddingVector))
  unfolding fill
  finish_batch texts [] fresh = ok (map lookup texts)
  finish_batch texts (u ∷ us) fresh = fresh >>= λ vs. ok (fill (u ∷ us) vs (map lookup texts))

  -- `embed_batch`; `api` is what the client answers to a list of texts.
  unfoldable pub embed_batch :
      Text → ℕ → (List Text → ApiOutcome) → List Text → Result Exc (List (Option EmbeddingVector))
  unfolding uncached_from call_openai
  embed_batch model dimensions api texts =
      let uncached = uncached_from 0 texts in
      finish_batch texts uncached (call_openai model dimensions (api (map (λ u. u.1) uncached)))
