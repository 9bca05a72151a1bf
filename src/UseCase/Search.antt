-- ===== src/UseCase/Search.antt =====
-- app/application/use_cases/search_documents.py and the DTOs of app/application/dto/search.py. The
-- embedding provider, the vector repository and the token counter are a parameter.
pub mod Dto
pub mod Wired
use ai_backend_api.Base.{ℕ, Option, none, some, List, [], ◌∷◌, map, length}
use ai_backend_api.Base.Text.{Text, codes}
use ai_backend_api.Base.Dict.{Dict, put}
use ai_backend_api.Entity.Values.{EmbeddingVector, Value, str}
use ai_backend_api.Entity.Chat.{SearchResult}
use ai_backend_api.Base.Result.{Result}
use ai_backend_api.Errors.{Exc}
use ai_backend_api.Exec.{Exec, pure, lift, ◌>>=◌}

-- `filters` None and the empty dictionary are treated alike: the empty list.
pub record SearchRequest : Type 0 where
  pub query : Text
  pub collection_id : Option Text
  pub top_k : ℕ
  pub filters : Dict Value

pub record SearchResultDto : Type 0 where
  pub chunk_id : Text
  pub document_id : Text
  pub content : Text
  pub score : ℕ
  pub metadata : Dict Value
  pub document_title : Text
  pub chunk_index : ℕ

pub record SearchResponse : Type 0 where
  pub results : List SearchResultDto
  pub total : ℕ
  pub query_tokens : ℕ

pub record SearchBackend : Type 1 where
  pub State : Type 0
  -- It raises ValueError on a text with a special token.
  pub count_tokens : Text → Text → Result Exc ℕ
  pub embed : Text → Exec State EmbeddingVector
  pub search : EmbeddingVector → ℕ → Option (Dict Value) → Exec State (List SearchResult)

-- `dict(filters) if filters else None`
abbrev pub given_filters : Dict Value → Option (Dict Value)
given_filters [] = none
given_filters (e ∷ es) = some (e ∷ es)

-- `if request.collection_id:`
abbrev pub with_collection : Option Text → Option (Dict Value) → Option (Dict Value)
with_collection none filters = filters
with_collection (some []) filters = filters
with_collection (some (c ∷ cs)) none = some (put [] (codes "collection_id") (str (c ∷ cs)))
with_collection (some (c ∷ cs)) (some filters) =
    some (put filters (codes "collection_id") (str (c ∷ cs)))

unfoldable pub search_filters : SearchRequest → Option (Dict Value)
search_filters request = with_collection request.collection_id (given_filters request.filters)

unfoldable pub result_dto : SearchResult → SearchResultDto
result_dto r = record {
  chunk_id = r.chunk_id.value;
  document_id = r.document_id.value;
  content = r.content;
  score = r.score;
  metadata = r.metadata;
  document_title = r.document_title;
  chunk_index = r.chunk_index;
}

module _ (backend : SearchBackend) where
  unfoldable pub execute : SearchRequest → Exec backend.State SearchResponse
  unfolding search_filters result_dto
  execute request = do
    query_tokens ← lift (backend.count_tokens request.query (codes "gpt-4o"))
    query_embedding ← backend.embed request.query
    results ← backend.search query_embedding request.top_k (search_filters request)
    let result_dtos = map result_dto results
    pure (record { results = result_dtos; total = length result_dtos; query_tokens = query_tokens })
