-- ===== src/Api/Search.antt =====
-- app/api/routers/search.py and the schemas of app/api/schemas/search.py.
use ai_backend_api.Base.{ℕ, Bool, ◌&&◌, Option, List, map, leb, length, if◌then◌else◌}
use ai_backend_api.Base.Text.{Text}
use ai_backend_api.Base.Dict.{Dict}
use ai_backend_api.Base.Result.{Result, ok, err}
use ai_backend_api.Api.Auth.{HttpException, get_api_key}
use ai_backend_api.Entity.Values.{Value}
use ai_backend_api.Errors.{Exc}
use ai_backend_api.Errors.Handlers.{ErrorAnswer, answer}
use ai_backend_api.UseCase.Search.{
  SearchBackend, SearchRequest, SearchResultDto, SearchResponse, execute,
}

-- `filters` None and the empty dictionary are treated alike: the empty list.
pub record ApiSearchRequest : Type 0 where
  pub query : Text
  pub collection_id : Option Text
  pub top_k : ℕ
  pub filters : Dict Value

-- The constraints of the fields.
unfoldable pub is_valid : ApiSearchRequest → Bool
is_valid r = leb 1 (length r.query) && (leb 1 r.top_k && leb r.top_k 100)

pub record SearchResultResponse : Type 0 where
  pub chunk_id : Text
  pub document_id : Text
  pub content : Text
  pub score : ℕ
  pub metadata : Dict Value
  pub document_title : Text
  pub chunk_index : ℕ

-- The `SearchResponse` of the API.
pub record ApiSearchResponse : Type 0 where
  pub results : List SearchResultResponse
  pub total : ℕ
  pub query_tokens : ℕ

unfoldable pub result_response : SearchResultDto → SearchResultResponse
result_response r = record {
  chunk_id = r.chunk_id;
  document_id = r.document_id;
  content = r.content;
  score = r.score;
  metadata = r.metadata;
  document_title = r.document_title;
  chunk_index = r.chunk_index;
}

unfoldable pub search_response : SearchResponse → ApiSearchResponse
unfolding result_response
search_response dto = record {
  results = map result_response dto.results;
  total = dto.total;
  query_tokens = dto.query_tokens;
}

unfoldable pub dto_request : ApiSearchRequest → SearchRequest
dto_request r = record {
  query = r.query;
  collection_id = r.collection_id;
  top_k = r.top_k;
  filters = r.filters;
}

pub data SearchAnswer : Type 0 where
  responded : ApiSearchResponse → SearchAnswer
  refused : HttpException → SearchAnswer
  invalid : SearchAnswer
  failed : Option ErrorAnswer → SearchAnswer

module _ (backend : SearchBackend) where
  abbrev pub answered : Result Exc SearchResponse → SearchAnswer
  unfolding answer search_response
  answered (ok dto) = SearchAnswer.responded (search_response dto)
  answered (err e) = SearchAnswer.failed (answer e)

  -- The handler's body.
  unfoldable pub search_documents : ApiSearchRequest → backend.State → SearchAnswer × backend.State
  unfolding execute dto_request search_response
  search_documents request s =
      let (r, s') = execute backend (dto_request request) s in (answered r, s')

  unfoldable pub authorised :
      Result HttpException Text → ApiSearchRequest → backend.State → SearchAnswer × backend.State
  unfolding is_valid search_documents
  authorised (err e) request s = (SearchAnswer.refused e, s)
  authorised (ok key) request s =
      if is_valid request then search_documents request s else (SearchAnswer.invalid, s)

  -- `POST /search`
  unfoldable pub post_search :
      Text → Option Text → ApiSearchRequest → backend.State → SearchAnswer × backend.State
  unfolding get_api_key is_valid search_documents
  post_search expected header request s = authorised (get_api_key expected header) request s
