-- ===== src/Tests/Pipeline.antt =====
-- Examples on the ingestion of documents: the use cases, the pipeline and the task.
use ai_backend_api.Base.{
  ℕ, suc, true, false, arith, ◌++◌, ◌≡◌, refl, Option, none, some, List, [], ◌∷◌, map,
}
use ai_backend_api.Base.Text.{Text, codes, strip}
use ai_backend_api.Base.Int.{pos}
use ai_backend_api.Base.Result.{ok, err}
use ai_backend_api.Errors.{Exc, message, is_exception}
use ai_backend_api.Exec.{Exec, ◌>>=◌}
use ai_backend_api.Entity.Values.{TenantId, DocumentId, EmbeddingVector}
use ai_backend_api.Entity.Identity.{Entity}
use ai_backend_api.Entity.Document.{Document, DocumentStatus}
use ai_backend_api.Entity.Job.{IngestionJob, IngestionStatus, fail}
use ai_backend_api.Entity.Chunk.{Chunk}
use ai_backend_api.Chunking.Data.{ChunkData}
use ai_backend_api.UseCase.Process
use ai_backend_api.UseCase.Process.{Backend, Run, report_failure, embed_loop, rounds}
use ai_backend_api.UseCase.Process.Outcome.{IsOver, execute-IsOver}
use ai_backend_api.UseCase.Process.Tenantless.{execute-fails}
use ai_backend_api.UseCase.Process.Embedding.{IsEmbedded, embed_loop-IsEmbedded}
use ai_backend_api.UseCase.Task.{TaskBackend, attempts, DlqEntry}
use ai_backend_api.UseCase.Task.Retries.{attempts-single, unexpected_tenant}
use ai_backend_api.UseCase.Ingest.{IngestBackend, IngestRequest, Draws}
use ai_backend_api.Api.Auth.{get_api_key}
use ai_backend_api.Api.Documents.{post_documents, post_documents-fails, Answer, is_valid}
use ai_backend_api.Errors.Handlers.{error_response}

abbrev entity : Entity
entity = record { id = codes "e"; created_at = 1; updated_at = 1 }

abbrev document : Document
document = record {
  entity = entity;
  tenant_id = record { value = codes "t" };
  document_id = record { value = codes "d" };
  collection_id = record { value = codes "c" };
  title = codes "T";
  content = codes "Hello";
  content_type = codes "text/plain";
  metadata = [];
  status = DocumentStatus.processing;
  chunk_count = 0;
  token_count = 0;
  error_message = none;
}

abbrev job : IngestionJob
job = record {
  entity = entity;
  job_id = record { value = codes "j" };
  document_id = record { value = codes "d" };
  status = IngestionStatus.queued;
  total_chunks = 0;
  processed_chunks = 0;
  error_message = none;
  started_at = none;
  completed_at = none;
}

abbrev piece : ChunkData
piece = record {
  content = codes "Hello";
  start_char = pos 0;
  end_char = pos 5;
  chunk_index = 0;
  token_count = 1;
}

abbrev vector : EmbeddingVector
vector = record { values = 1 ∷ []; model = codes "m"; dimensions = 1 }

-- Repositories of one document, which remember what the last update wrote.
abbrev backend : Backend
backend = record {
  State = Document;
  get_by_id = λ id s. (ok (some s), s);
  update_document = λ d s. (ok tt, d);
  save_many = λ cs s. (ok cs, s);
  embed_batch = λ ts s. (ok (map (λ t. vector) ts), s);
  upsert_many = λ es s. (ok tt, s);
  chunk = λ text size overlap. ok (piece ∷ []);
  count_tokens = λ text model. ok 1;
  missing_tenant = codes "1 validation error for Chunk";
  identity = λ n. (entity, record { value = codes "k" });
}

abbrev document_id : DocumentId
document_id = record { value = codes "d" }

abbrev queued_run : Run Document
queued_run = record { job = job; store = document }

execute-IsOver_example :
    ((e : Exc)
      → (Process.execute backend 1000 200 7 document_id queued_run).0 ≡ err e
      → is_exception e ≡ false)
    × ((Process.execute backend 1000 200 7 document_id queued_run).0 ≡ ok tt
        → IsOver (Process.execute backend 1000 200 7 document_id queued_run).1.job)
    × ((e : Exc)
        → is_exception e ≡ true
        → (Process.pipeline backend 1000 200 7 document_id queued_run).0 ≡ err e
        → (Process.execute backend 1000 200 7 document_id queued_run).1.job
          ≡ fail 7
              (codes "Pipeline failed: " ++ message e)
              (Process.pipeline backend 1000 200 7 document_id queued_run).1.job)
    × ((Process.pipeline backend 1000 200 7 document_id queued_run).0 ≡ err Exc.cancelled_error
        → Process.execute backend 1000 200 7 document_id queued_run
          ≡ Process.pipeline backend 1000 200 7 document_id queued_run)
execute-IsOver_example = execute-IsOver backend 1000 200 7 document_id queued_run

abbrev failed_text : Text
failed_text = codes "Pipeline failed: 1 validation error for Chunk"

execute-fails_example :
    ((Process.execute backend 1000 200 7 document_id queued_run).1.job.status
      ≡ IngestionStatus.failed)
    × ((Process.execute backend 1000 200 7 document_id queued_run).1.job.error_message
        ≡ some failed_text)
    × ((Process.execute backend 1000 200 7 document_id queued_run).1.store
        ≡ (report_failure backend 1000 200 7 document_id failed_text document).1)
unfolding strip message is_exception
execute-fails_example =
    execute-fails backend 1000 200 7 document_id document queued_run piece [] refl refl refl refl
      refl

abbrev chunk_of : Text → Chunk
chunk_of id = record {
  entity = entity;
  tenant_id = record { value = codes "t" };
  chunk_id = record { value = id };
  document_id = record { value = codes "d" };
  collection_id = record { value = codes "c" };
  content = codes "text";
  chunk_index = 0;
  start_char = pos 0;
  end_char = pos 4;
  token_count = 3;
  embedding = none;
  metadata = [];
}

abbrev embedded_of : Text → Chunk
embedded_of id = record (chunk_of id) {
  embedding = some vector;
  entity = record { id = codes "e"; created_at = 1; updated_at = 7 };
}

abbrev embedding_job : IngestionJob
embedding_job = record job { status = IngestionStatus.embedding; total_chunks = 2 }

abbrev two_chunks : List Chunk
two_chunks = chunk_of (codes "k0") ∷ chunk_of (codes "k1") ∷ []

embed_loop-IsEmbedded_example :
    IsEmbedded backend 1000 200 7 two_chunks embedding_job
      (embedded_of (codes "k0") ∷ embedded_of (codes "k1") ∷ [])
      []
      6
      (embed_loop backend 1000 200 7
        (rounds 2)
        ([], two_chunks, 0)
        (record { job = embedding_job; store = document })).1.job
unfolding embed_loop Process.embed_round Process.on_store Process.on_job Process.attach
    Process.sum_tokens ◌>>=◌
embed_loop-IsEmbedded_example =
    embed_loop-IsEmbedded backend 1000 200 7 two_chunks embedding_job
      (record { job = embedding_job; store = document })
      (embedded_of (codes "k0") ∷ embedded_of (codes "k1") ∷ []) [] 6 refl refl refl refl

abbrev task_backend : TaskBackend
task_backend = record {
  process = backend;
  Queue = List DlqEntry;
  zadd = λ e q. (ok tt, e ∷ q);
  parse_uuid = λ t. some t;
  job_entity = entity;
  chunk_size = 1000;
  chunk_overlap = 200;
  now = 7;
}

attempts-single_example :
    attempts task_backend (λ e. false) 3 1 3 (codes "t") (codes "d") (codes "j") (document, [])
    ≡ (Exc.type_error unexpected_tenant ∷ [], (document, []))
attempts-single_example =
    attempts-single task_backend (λ e. false) 3 2 (codes "t") (codes "d") (codes "j") (document, [])
      (record {
        tenant = codes "t";
        document = codes "d";
        job = codes "j";
        tenant_parsed = refl;
        document_parsed = refl;
        job_parsed = refl;
      })
      refl (omega arith)

abbrev pub request : IngestRequest
request = record {
  title = codes "T";
  content = codes "Hello";
  collection_id = some (codes "c");
  content_type = codes "text/plain";
  metadata = [];
}

abbrev pub draws : Draws
draws = record {
  collection_id = record { value = codes "c9" };
  document_entity = entity;
  document_id = record { value = codes "d9" };
  job_entity = entity;
  job_id = record { value = codes "j9" };
  now = 7;
}

abbrev finder : TenantId → Text → Exec ℕ (Option Document)
finder t content s = (ok (some document), suc s)

-- A repository that knows the document, and counts the calls.
abbrev pub knowing_backend : IngestBackend
knowing_backend = record {
  State = ℕ;
  find_duplicate = some finder;
  save = λ d s. (ok d, suc s);
  update = λ d s. (ok tt, suc s);
  enqueue_job = λ t d j s. (ok none, suc s);
  parse_uuid = λ t. some t;
}

post_documents-fails_example :
    post_documents knowing_backend
      (codes "key")
      (some (codes "key"))
      draws
      (record { value = codes "t" })
      request
      0
    ≡ (
      Answer.failed
          (some (error_response 500 (codes "Internal server error") (codes "INTERNAL_ERROR") none)),
      0,
    )
unfolding get_api_key is_valid
post_documents-fails_example =
    post_documents-fails knowing_backend (codes "key") (codes "key") draws
      (record { value = codes "t" }) request 0 refl refl
