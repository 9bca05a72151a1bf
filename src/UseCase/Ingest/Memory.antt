-- ===== src/UseCase/Ingest/Memory.antt =====
-- The ingestion of a document with the repository that keeps documents in memory.
use ai_backend_api.Base.{Option, none, some, List, [], ◌∷◌, ◌++◌, ◌≡◌, refl, ◌∙◌, false}
use ai_backend_api.Base.Text.{Text, codes, text_eq, text_eq_iff}
use ai_backend_api.Base.Dict.{put, get-put}
use ai_backend_api.Base.Result.{ok}
use ai_backend_api.Entity.Values.{UuidParser, DocumentId, TenantId, CollectionId}
use ai_backend_api.Entity.Document.{Document, DocumentStatus, document_new, mark_processing}
use ai_backend_api.Exec.{Exec, ◌>>=◌}
use ai_backend_api.Repository.MemoryDocument
use ai_backend_api.Repository.MemoryDocument.{Store, get_by_id}
use ai_backend_api.UseCase.Ingest.{
  IngestBackend, IngestRequest, Draws, collection_of, ingest_new, answer_existing, execute,
}

-- The tenant, document and job of a task.
abbrev pub QueuedTask : Type 0
QueuedTask = Text × Text × Text

-- `InMemoryDocumentRepository`, which has no `find_duplicate`, and a queue that takes every task.
abbrev pub memory_backend : UuidParser → IngestBackend
memory_backend parse = record {
  State = Store × List QueuedTask;
  find_duplicate = none;
  save = λ d s. let (saved, store) = MemoryDocument.save d s.0 in (ok saved, (store, s.1));
  update = λ d s. (ok tt, ((MemoryDocument.update d s.0).1, s.1));
  enqueue_job = λ t d j s. (ok (some j), (s.0, s.1 ++ ((t, d, j) ∷ [])));
  parse_uuid = parse;
}

-- If the collection of the request is absent or a UUID, ingesting a document with the repository in
-- memory answers "processing" with the new document's and job's identifiers; the document is then
-- found under its identifier, PROCESSING, with the tenant, collection and content asked
-- for; other identifiers are as before; and the queue has one more task, which
-- names the tenant, this document and this job.
pub ingest-found :
    (parse : UuidParser) (draws : Draws) (request : IngestRequest) (t : TenantId) (c : CollectionId)
    (store : Store) (queue : List QueuedTask)
    → collection_of (memory_backend parse) draws request.collection_id ≡ ok c
    → (store' : Store) × (d : Document) × (execute
          (memory_backend parse)
          draws
          request
          t
          (store, queue)
        ≡ (
          ok (record {
            document_id = draws.document_id.value;
            job_id = draws.job_id.value;
            status = codes "processing";
          }),
          (store', queue ++ ((t.value, draws.document_id.value, draws.job_id.value) ∷ [])),
        ))
      × (get_by_id draws.document_id store' ≡ some d)
      × (d.status ≡ DocumentStatus.processing)
      × (d.content ≡ request.content)
      × (d.tenant_id ≡ t)
      × (d.collection_id ≡ c)
      × ((i : DocumentId)
          → text_eq draws.document_id.value i.value ≡ false
          → get_by_id i store' ≡ get_by_id i store)
unfolding execute ingest_new MemoryDocument.save MemoryDocument.update get_by_id ◌>>=◌
ingest-found parse draws request t c store queue collection =
    let pending =
      document_new draws.document_entity t draws.document_id c request.title request.content
        request.content_type request.metadata in
    let d = mark_processing draws.now pending in
    let id = draws.document_id.value in
    let saved = put store id pending in
    (
      put saved id d,
      d,
      rw collection refl,
      get-put saved id d id ∙ rw ((text_eq_iff id id).1 refl) refl,
      unfold document_new mark_processing in refl,
      unfold document_new mark_processing in refl,
      unfold document_new mark_processing in refl,
      unfold document_new mark_processing in refl,
      λ i other.
          rw (get-put saved id d i.value, other, get-put store id pending i.value, other) refl,
    )

-- If the repository finds a document of the tenant with the same content, the answer names it as a
-- duplicate, and the state is the one that the lookup leaves: nothing is saved or queued.
pub ingest-duplicate :
    (backend : IngestBackend) (draws : Draws) (request : IngestRequest) (t : TenantId)
    (c : CollectionId) (find : TenantId → Text → Exec backend.State (Option Document))
    (existing : Document) (s s' : backend.State)
    → collection_of backend draws request.collection_id ≡ ok c
    → backend.find_duplicate ≡ some find
    → find t request.content s ≡ (ok (some existing), s')
    → execute backend draws request t s ≡ (
      ok (record {
        document_id = existing.document_id.value;
        job_id = codes "duplicate";
        status = codes "duplicate";
      }),
      s',
    )
unfolding execute answer_existing ◌>>=◌
ingest-duplicate backend draws request t c find existing s s' collection finds found =
    rw (collection, finds) (rw found refl)
