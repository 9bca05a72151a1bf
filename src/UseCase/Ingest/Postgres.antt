-- ===== src/UseCase/Ingest/Postgres.antt =====
-- The ingestion of documents with the repository in PostgreSQL.
use ai_backend_api.Base.{ℕ, none, some, List, [], ◌∷◌, ◌++◌, ◌≡◌, refl, ap, ◌∙◌}
use ai_backend_api.Base.Text.{codes}
use ai_backend_api.Base.Result.{Result, ok, err}
use ai_backend_api.Entity.Values.{Uuid, UuidParser, TenantId, CollectionId}
use ai_backend_api.Entity.Document.{Document, document_new, mark_processing}
use ai_backend_api.Errors
use ai_backend_api.Exec.{Exec, ◌>>=◌}
use ai_backend_api.Repository.Documents
use ai_backend_api.Repository.Documents.{
  DocumentLibrary, Database, Row, first_row, has_id, is_duplicate, content_hash, document_of,
  update_rows, inserted, row_of,
}
use ai_backend_api.Repository.Documents.Rows.{IsDocumentCodec, connected}
use ai_backend_api.Repository.Documents.Dedup.{duplicate-after}
use ai_backend_api.UseCase.Ingest.{
  IngestBackend, IngestRequest, Draws, collection_of, ingest_new, answer_existing, execute,
}
use ai_backend_api.UseCase.Ingest.Memory.{QueuedTask, ingest-duplicate}

-- A method of the repository, beside the queue.
abbrev pub on_database : {A : Type 0} → Exec Database A → Exec (Database × List QueuedTask) A
on_database method s = ((method s.0).0, ((method s.0).1, s.1))

abbrev pub done : {A : Type 0} → Result Errors.Exc A → Result Errors.Exc (Unit {0})
done (ok a) = ok tt
done (err e) = err e

-- `PostgresDocumentRepository`, with what its reads draw and NOW(), and a queue that takes every
-- task.
abbrev pub postgres_backend : DocumentLibrary → UuidParser → Uuid → ℕ → IngestBackend
postgres_backend library parse fresh now = record {
  State = Database × List QueuedTask;
  find_duplicate =
      some (λ t content. on_database (Documents.find_duplicate library fresh t content));
  save = λ d. on_database (Documents.save library d);
  update = λ d s.
      (done (Documents.update library now d s.0).0, ((Documents.update library now d s.0).1, s.1));
  enqueue_job = λ t d j s. (ok (some j), (s.0, s.1 ++ ((t, d, j) ∷ [])));
  parse_uuid = parse;
}

module _ (library : DocumentLibrary) (parse : UuidParser) (fresh : Uuid) (now : ℕ) (draws : Draws)
    (request : IngestRequest) (t : TenantId) (c : CollectionId) (rows : List Row)
    (queue : List QueuedTask) where
  abbrev drafted : Document
  unfolding document_new
  drafted =
      document_new draws.document_entity t draws.document_id c request.title request.content
        request.content_type request.metadata

  abbrev after_first : Database × List QueuedTask
  unfolding document_new mark_processing update_rows row_of
  after_first = (
    connected (
        update_rows library now (mark_processing draws.now drafted) (
          inserted (first_row (has_id draws.document_id.value) rows) (row_of library drafted)
            rows)),
    queue ++ ((t.value, draws.document_id.value, draws.job_id.value) ∷ []),
  )

  first_lem :
      collection_of (postgres_backend library parse fresh now) draws request.collection_id ≡ ok c
      → first_row (is_duplicate t.value (content_hash library request.content)) rows ≡ none
      → execute (postgres_backend library parse fresh now) draws request t (connected rows, queue)
        ≡ (
          ok (record {
            document_id = draws.document_id.value;
            job_id = draws.job_id.value;
            status = codes "processing";
          }),
          after_first,
        )
  unfolding execute answer_existing ingest_new ◌>>=◌ Documents.find_duplicate Documents.save
      Documents.update document_new mark_processing Documents.row_to_document
  first_lem collection new = rw (collection, new) refl

  -- Ingesting a document whose identifier and content are new to the tenant answers "processing" and
  -- queues one task; ingesting the same content for the same tenant again, under any title and with
  -- whatever the second call draws, answers "duplicate" with the identifier of the first
  -- document, and changes neither the table nor the queue.
  pub ingest_twice :
      (again : Draws) (request' : IngestRequest) (c' : CollectionId)
      → IsDocumentCodec library
      → collection_of (postgres_backend library parse fresh now) draws request.collection_id ≡ ok c
      → collection_of (postgres_backend library parse fresh now) again request'.collection_id
        ≡ ok c'
      → request'.content ≡ request.content
      → first_row (has_id draws.document_id.value) rows ≡ none
      → first_row (is_duplicate t.value (content_hash library request.content)) rows ≡ none
      → (s : Database × List QueuedTask) × (execute
            (postgres_backend library parse fresh now)
            draws
            request
            t
            (connected rows, queue)
          ≡ (
            ok (record {
              document_id = draws.document_id.value;
              job_id = draws.job_id.value;
              status = codes "processing";
            }),
            s,
          ))
        × (s.1 ≡ queue ++ ((t.value, draws.document_id.value, draws.job_id.value) ∷ []))
        × (execute (postgres_backend library parse fresh now) again request' t s ≡ (
          ok (record {
            document_id = draws.document_id.value;
            job_id = codes "duplicate";
            status = codes "duplicate";
          }),
          s,
        ))
  unfolding after_first Documents.find_duplicate Documents.row_to_document
  ingest_twice again request' c' codec collection collection' same new_id new =
      let backend : IngestBackend = postgres_backend library parse fresh now in
      let (e, found, named) =
        duplicate-after library codec fresh now drafted (mark_processing draws.now drafted) rows
          (first_row (has_id draws.document_id.value) rows) new_id new refl in
      let lookup : (Documents.find_duplicate library fresh t request'.content after_first.0).0
          ≡ ok (some e) =
        ap (λ content. (Documents.find_duplicate library fresh t content after_first.0).0) same
        ∙ found in
      (
        after_first,
        first_lem collection new,
        refl,
        ingest-duplicate backend again request' t c'
              (λ u content. on_database (Documents.find_duplicate library fresh u content)) e
              after_first after_first collection' refl (λ i. (lookup i, after_first))
            ∙ λ i. (
              ok (record {
                document_id = named i;
                job_id = codes "duplicate";
                status = codes "duplicate";
              }),
              after_first,
            ),
      )
