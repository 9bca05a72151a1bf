-- ===== src/Api/Documents.antt =====
-- app/api/routers/documents.py
use ai_backend_api.Base.{
  Bool, true, ◌&&◌, Option, none, some, [], ◌∷◌, leb, length, if◌then◌else◌, ◌≡◌, refl,
}
use ai_backend_api.Base.Text.{Text, codes}
use ai_backend_api.Base.Result.{Result, ok, err}
use ai_backend_api.Api.Auth.{HttpException, get_api_key}
use ai_backend_api.Call.{Signature, check_call}
use ai_backend_api.Entity.Values.{TenantId}
use ai_backend_api.Errors.{Exc}
use ai_backend_api.Errors.Handlers.{ErrorAnswer, answer, error_response}
use ai_backend_api.Exec.{Exec, lift, ◌>>=◌, ◌>>◌}
use ai_backend_api.UseCase.Ingest.{IngestBackend, IngestRequest, IngestResponse, Draws, execute}

-- The field constraints of the API schema.
unfoldable pub is_valid : IngestRequest → Bool
is_valid r =
    (leb 1 (length r.title) && leb (length r.title) 500)
    && (leb 1 (length r.content) && leb (length r.content) 500_000)

-- `async def execute(self, request, tenant_id)` of the use case
abbrev pub ingest_signature : Signature
ingest_signature = record {
  function = codes "IngestDocumentUseCase.execute";
  parameters = codes "self" ∷ codes "request" ∷ codes "tenant_id" ∷ [];
  required = codes "self" ∷ codes "request" ∷ codes "tenant_id" ∷ [];
}

-- What the client gets: the response, or the answer of the dependency, of the validation or of an
-- exception handler.
pub data Answer : Type 0 where
  accepted : IngestResponse → Answer
  refused : HttpException → Answer
  invalid : Answer
  failed : Option ErrorAnswer → Answer

module _ (backend : IngestBackend) where
  -- The handler's body: `use_case.execute(dto_request)`. The tenant that the call would have to
  -- name is an argument, to say that none helps.
  unfoldable pub ingest_document :
      Draws → TenantId → IngestRequest → Exec backend.State IngestResponse
  unfolding execute
  ingest_document draws tenant_id request =
      lift (check_call ingest_signature 2 []) >> execute backend draws request tenant_id

  abbrev pub answered : Result Exc IngestResponse → Answer
  unfolding answer
  answered (ok r) = Answer.accepted r
  answered (err e) = Answer.failed (answer e)

  unfoldable pub authorised :
      Result HttpException Text
      → Draws
      → TenantId
      → IngestRequest
      → backend.State
      → Answer × backend.State
  unfolding is_valid ingest_document
  authorised (err e) draws tenant_id request s = (Answer.refused e, s)
  authorised (ok key) draws tenant_id request s =
      if is_valid request
      then (let (r, s') = ingest_document draws tenant_id request s in (answered r, s'))
      else (Answer.invalid, s)

  -- `POST /documents`
  unfoldable pub post_documents :
      Text → Option Text → Draws → TenantId → IngestRequest → backend.State → Answer × backend.State
  unfolding get_api_key
  post_documents expected header draws tenant_id request s =
      authorised (get_api_key expected header) draws tenant_id request s

  -- A request with the right key and a valid body is always answered 500 "Internal server error",
  -- and changes nothing: the route calls the use case without the tenant that it requires.
  pub post_documents-fails :
      (expected key : Text) (draws : Draws) (tenant_id : TenantId) (request : IngestRequest)
      (s : backend.State)
      → get_api_key expected (some key) ≡ ok key
      → is_valid request ≡ true
      → post_documents expected (some key) draws tenant_id request s ≡ (
        Answer.failed (
            some
              (error_response 500 (codes "Internal server error") (codes "INTERNAL_ERROR") none)),
        s,
      )
  unfolding post_documents authorised ingest_document answered answer ◌>>=◌
  post_documents-fails expected key draws tenant_id request s right valid = rw (right, valid) refl
