-- ===== src/Errors.antt =====
-- The exceptions of app/domain/exceptions, those that Python and pydantic raise in the program, and
-- (in `Handlers`) the answers that app/api/middleware/error_handler.py gives to them.
pub mod Handlers
use ai_backend_api.Base.{ℕ, Bool, true, false, Option, none, some, List, [], ◌∷◌, ◌++◌}
use ai_backend_api.Base.Text.{Text, codes, show}

-- One constructor for each class that the program instantiates, with its constructor's arguments.
-- The `HTTPException` of the API key is `Api.Auth.HttpException`, answered as it is, and FastAPI's
-- `RequestValidationError` is answered by `Handlers.request_validation_handler`.
pub data Exc : Type 0 where
  -- base.py
  domain_exception : (message code : Text) → Exc
  entity_not_found : (entity_type entity_id : Text) → Exc
  validation : (field detail : Text) → Exc
  business_rule : (rule : Text) → Exc
  -- document.py
  document_not_found : (document_id : Text) → Exc
  document_already_exists : (document_id : Text) → Exc
  invalid_document_content : (detail : Text) → Exc
  chunking_failed : (document_id detail : Text) → Exc
  -- llm.py; a delay is a whole number of seconds, where the source has a float
  llm : (message code : Text) → Exc
  llm_connection : (detail : Text) → Exc
  llm_rate_limit : (retry_after : Option ℕ) → Exc
  token_limit_exceeded : (token_count max_tokens : ℕ) → Exc
  embedding_failed : (detail : Text) → Exc
  -- search.py
  search_failed : (message : Text) → Exc
  empty_query : Exc
  collection_not_found : (collection_id : Text) → Exc
  -- Python's and pydantic's own, by `str(exc)`
  value_error type_error runtime_error validation_error other_error : (text : Text) → Exc
  -- asyncio's, which is a `BaseException` and no `Exception`
  cancelled_error : Exc

-- The classes that matter where an exception is caught or handled.
pub data Class : Type 0 where
  document_not_found_class collection_not_found_class entity_not_found_class : Class
  invalid_content_class empty_query_class validation_class business_rule_class : Class
  already_exists_class chunking_class search_class : Class
  rate_limit_class connection_class token_limit_class embedding_class llm_class : Class
  domain_class value_class type_class runtime_class pydantic_class other_class exception_class :
      Class

-- `type(exc).__mro__`, as far as `Exception`.
unfoldable pub mro : Exc → List Class
mro (Exc.domain_exception _ _) = Class.domain_class ∷ Class.exception_class ∷ []
mro (Exc.entity_not_found _ _) =
    Class.entity_not_found_class ∷ Class.domain_class ∷ Class.exception_class ∷ []
mro (Exc.validation _ _) = Class.validation_class ∷ Class.domain_class ∷ Class.exception_class ∷ []
mro (Exc.business_rule _) =
    Class.business_rule_class ∷ Class.domain_class ∷ Class.exception_class ∷ []
mro (Exc.document_not_found _) =
    Class.document_not_found_class ∷ Class.entity_not_found_class ∷ Class.domain_class
    ∷ Class.exception_class ∷ []
mro (Exc.document_already_exists _) =
    Class.already_exists_class ∷ Class.domain_class ∷ Class.exception_class ∷ []
mro (Exc.invalid_document_content _) =
    Class.invalid_content_class ∷ Class.validation_class ∷ Class.domain_class
    ∷ Class.exception_class ∷ []
mro (Exc.chunking_failed _ _) =
    Class.chunking_class ∷ Class.domain_class ∷ Class.exception_class ∷ []
mro (Exc.llm _ _) = Class.llm_class ∷ Class.domain_class ∷ Class.exception_class ∷ []
mro (Exc.llm_connection _) =
    Class.connection_class ∷ Class.llm_class ∷ Class.domain_class ∷ Class.exception_class ∷ []
mro (Exc.llm_rate_limit _) =
    Class.rate_limit_class ∷ Class.llm_class ∷ Class.domain_class ∷ Class.exception_class ∷ []
mro (Exc.token_limit_exceeded _ _) =
    Class.token_limit_class ∷ Class.llm_class ∷ Class.domain_class ∷ Class.exception_class ∷ []
mro (Exc.embedding_failed _) =
    Class.embedding_class ∷ Class.llm_class ∷ Class.domain_class ∷ Class.exception_class ∷ []
mro (Exc.search_failed _) = Class.search_class ∷ Class.domain_class ∷ Class.exception_class ∷ []
mro Exc.empty_query =
    Class.empty_query_class ∷ Class.validation_class ∷ Class.domain_class ∷ Class.exception_class
    ∷ []
mro (Exc.collection_not_found _) =
    Class.collection_not_found_class ∷ Class.entity_not_found_class ∷ Class.domain_class
    ∷ Class.exception_class ∷ []
mro (Exc.value_error _) = Class.value_class ∷ Class.exception_class ∷ []
mro (Exc.type_error _) = Class.type_class ∷ Class.exception_class ∷ []
mro (Exc.runtime_error _) = Class.runtime_class ∷ Class.exception_class ∷ []
mro (Exc.validation_error _) = Class.pydantic_class ∷ Class.value_class ∷ Class.exception_class ∷ []
mro (Exc.other_error _) = Class.other_class ∷ Class.exception_class ∷ []
mro Exc.cancelled_error = []

-- `except Exception` catches it.
unfoldable pub is_exception : Exc → Bool
is_exception Exc.cancelled_error = false
is_exception _ = true

not_found_message : Text → Text → Text
not_found_message entity_type entity_id =
    entity_type ++ (codes " with id '" ++ (entity_id ++ codes "' not found"))

validation_message : Text → Text → Text
validation_message field detail =
    codes "Validation failed for '" ++ (field ++ (codes "': " ++ detail))

rate_limit_suffix : Option ℕ → Text
rate_limit_suffix none = []
rate_limit_suffix (some s) = codes ", retry after " ++ (show s ++ codes "s")

-- `exc.message`, which is also `str(exc)`.
unfoldable pub message : Exc → Text
unfolding not_found_message validation_message rate_limit_suffix
message (Exc.domain_exception m _) = m
message (Exc.entity_not_found t i) = not_found_message t i
message (Exc.validation f d) = validation_message f d
message (Exc.business_rule r) = codes "Business rule violated: " ++ r
message (Exc.document_not_found i) = not_found_message (codes "Document") i
message (Exc.document_already_exists i) = codes "Document '" ++ (i ++ codes "' already exists")
message (Exc.invalid_document_content d) = validation_message (codes "content") d
message (Exc.chunking_failed i d) =
    codes "Chunking failed for document '" ++ (i ++ (codes "': " ++ d))
message (Exc.llm m _) = m
message (Exc.llm_connection d) = codes "LLM connection failed: " ++ d
message (Exc.llm_rate_limit r) = codes "LLM rate limit exceeded" ++ rate_limit_suffix r
message (Exc.token_limit_exceeded n m) =
    codes "Token limit exceeded: " ++ (show n ++ (codes " > " ++ show m))
message (Exc.embedding_failed d) = codes "Embedding generation failed: " ++ d
message (Exc.search_failed m) = m
message Exc.empty_query = validation_message (codes "query") (codes "Search query cannot be empty")
message (Exc.collection_not_found i) = not_found_message (codes "Collection") i
message (Exc.value_error t) = t
message (Exc.type_error t) = t
message (Exc.runtime_error t) = t
message (Exc.validation_error t) = t
message (Exc.other_error t) = t
message Exc.cancelled_error = []

-- `exc.code` of a domain exception.
unfoldable pub error_code : Exc → Option Text
error_code (Exc.domain_exception _ c) = some c
error_code (Exc.entity_not_found _ _) = some (codes "ENTITY_NOT_FOUND")
error_code (Exc.validation _ _) = some (codes "VALIDATION_ERROR")
error_code (Exc.business_rule _) = some (codes "BUSINESS_RULE_VIOLATION")
error_code (Exc.document_not_found _) = some (codes "ENTITY_NOT_FOUND")
error_code (Exc.document_already_exists _) = some (codes "DOCUMENT_ALREADY_EXISTS")
error_code (Exc.invalid_document_content _) = some (codes "VALIDATION_ERROR")
error_code (Exc.chunking_failed _ _) = some (codes "CHUNKING_ERROR")
error_code (Exc.llm _ c) = some c
error_code (Exc.llm_connection _) = some (codes "LLM_CONNECTION_ERROR")
error_code (Exc.llm_rate_limit _) = some (codes "LLM_RATE_LIMIT")
error_code (Exc.token_limit_exceeded _ _) = some (codes "TOKEN_LIMIT_EXCEEDED")
error_code (Exc.embedding_failed _) = some (codes "EMBEDDING_ERROR")
error_code (Exc.search_failed _) = some (codes "SEARCH_ERROR")
error_code Exc.empty_query = some (codes "VALIDATION_ERROR")
error_code (Exc.collection_not_found _) = some (codes "ENTITY_NOT_FOUND")
error_code _ = none

-- `exc.field` of a `ValidationException`.
unfoldable pub error_field : Exc → Option Text
error_field (Exc.validation f _) = some f
error_field (Exc.invalid_document_content _) = some (codes "content")
error_field Exc.empty_query = some (codes "query")
error_field _ = none
