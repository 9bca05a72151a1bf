-- ===== src/UseCase/Ingest.antt =====
-- app/application/use_cases/ingest_document.py and the DTOs of app/application/dto/document.py. The
-- repository and the ARQ pool are a parameter.
pub mod Memory
pub mod Postgres
use ai_backend_api.Base.{ℕ, Option, none, some, List, [], ◌∷◌}
use ai_backend_api.Base.Text.{Text, codes}
use ai_backend_api.Base.Dict.{Dict}
use ai_backend_api.Base.Result.{Result, ok, err}
use ai_backend_api.Entity.Values.{
  UuidParser, DocumentId, CollectionId, TenantId, IngestionJobId, Value, collection_id_from_str,
}
use ai_backend_api.Entity.Identity.{Entity}
use ai_backend_api.Entity.Document.{Document, document_new, mark_processing}
use ai_backend_api.Entity.Job.{job_new}
use ai_backend_api.Errors.{Exc}
use ai_backend_api.Exec.{Exec, pure, lift, ◌>>=◌, ◌>>◌}

pub record IngestRequest : Type 0 where
  pub title : Text
  pub content : Text
  pub collection_id : Option Text
  pub content_type : Text
  pub metadata : Dict Value

pub record IngestResponse : Type 0 where
  pub document_id : Text
  pub job_id : Text
  pub status : Text

pub record IngestBackend : Type 1 where
  pub State : Type 0
  -- The method that not every repository has
  pub find_duplicate : Option (TenantId → Text → Exec State (Option Document))
  pub save : Document → Exec State Document
  pub update : Document → Exec State (Unit {0})
  -- `enqueue_job("process_document_task", tenant_id, document_id, job_id)`
  pub enqueue_job : Text → Text → Text → Exec State (Option Text)
  pub parse_uuid : UuidParser

-- What the constructors draw in a run: `uuid4()`s and readings of the clock.
pub record Draws : Type 0 where
  pub collection_id : CollectionId
  pub document_entity : Entity
  pub document_id : DocumentId
  pub job_entity : Entity
  pub job_id : IngestionJobId
  pub now : ℕ

module _ (backend : IngestBackend) where
  -- Step 1.
  unfoldable pub collection_of : Draws → Option Text → Result Exc CollectionId
  collection_of draws none = ok draws.collection_id
  collection_of draws (some []) = ok draws.collection_id
  collection_of draws (some (c ∷ cs)) = elim (collection_id_from_str backend.parse_uuid (c ∷ cs)) [
    | none ↦ err (Exc.value_error (codes "badly formed hexadecimal UUID string"))
    | some id ↦ ok id
  ]

  -- Step 2.
  abbrev pub existing_of :
      Option (TenantId → Text → Exec backend.State (Option Document))
      → TenantId
      → Text
      → Exec backend.State (Option Document)
  existing_of none tenant_id content = pure none
  existing_of (some find) tenant_id content = find tenant_id content

  -- Steps 3 to 6; `mark_processing` changes the document that `save` returns.
  unfoldable pub ingest_new :
      Draws → IngestRequest → TenantId → CollectionId → Exec backend.State IngestResponse
  unfolding document_new mark_processing job_new
  ingest_new draws request tenant_id collection_id = do
    document ← backend.save (
        document_new draws.document_entity tenant_id draws.document_id collection_id request.title
          request.content request.content_type request.metadata)
    let job = job_new draws.job_entity draws.job_id document.document_id
    backend.update (mark_processing draws.now document)
    arq_job ← backend.enqueue_job tenant_id.value document.document_id.value job.job_id.value
    pure (record {
      document_id = document.document_id.value;
      job_id = job.job_id.value;
      status = codes "processing";
    })

  abbrev pub answer_existing :
      Draws
      → IngestRequest
      → TenantId
      → CollectionId
      → Option Document
      → Exec backend.State IngestResponse
  unfolding ingest_new
  answer_existing draws request tenant_id collection_id (some existing) = pure (record {
    document_id = existing.document_id.value;
    job_id = codes "duplicate";
    status = codes "duplicate";
  })
  answer_existing draws request tenant_id collection_id none =
      ingest_new draws request tenant_id collection_id

  unfoldable pub execute : Draws → IngestRequest → TenantId → Exec backend.State IngestResponse
  unfolding collection_of
  execute draws request tenant_id = do
    collection_id ← lift (collection_of draws request.collection_id)
    existing ← existing_of backend.find_duplicate tenant_id request.content
    answer_existing draws request tenant_id collection_id existing
