-- ===== src/UseCase/Process/Tenantless.antt =====
-- What the pipeline does with the chunks that the chunking strategy returns.
use ai_backend_api.Base.{ℕ, ◌≡◌, refl, true, some, List, ◌∷◌, ◌++◌, inl, inr}
use ai_backend_api.Base.Text.{Text, codes, strip, is_nonempty}
use ai_backend_api.Base.Result.{Result, ok, err, Result-cases}
use ai_backend_api.Entity.Values.{DocumentId}
use ai_backend_api.Entity.Document.{Document}
use ai_backend_api.Entity.Job.{IngestionStatus, fail, advance_status}
use ai_backend_api.Entity.Chunk.{chunk_new}
use ai_backend_api.Chunking.Data.{ChunkData}
use ai_backend_api.Errors.{Exc, message, is_exception}
use ai_backend_api.Exec.{◌>>=◌, handle}
use ai_backend_api.UseCase.Process.{
  Backend, Run, on_store, on_job, advance, build_chunks, chunk_and_store, process_found, pipeline,
  report_failure, recover, execute,
}

-- What building the first chunk raises, by what counting its tokens gives: `Chunk(…)` is called
-- without the tenant that its class requires.
abbrev pub first_exc : Text → Result Exc ℕ → Exc
first_exc missing_tenant (err e) = e
first_exc missing_tenant (ok token_count) = Exc.validation_error missing_tenant

module _ (backend : Backend) (chunk_size chunk_overlap now : ℕ) where
  -- What the pipeline raises on a document whose first chunk is `cd`.
  abbrev pub raised_on : ChunkData → Exc
  raised_on cd = first_exc backend.missing_tenant (backend.count_tokens cd.content (codes "gpt-4o"))

  build_chunks-first :
      (document : Document) (cd : ChunkData) (cds : List ChunkData)
      → build_chunks backend chunk_size chunk_overlap now 0 document (cd ∷ cds) ≡ err (raised_on cd)
  unfolding build_chunks chunk_new
  build_chunks-first document cd cds =
      elim (Result-cases (backend.count_tokens cd.content (codes "gpt-4o"))) [
        | inl (n, e) ↦ rw e refl
        | inr (x, e) ↦ rw e refl
      ]

  -- A job that is extracting, and one that is chunking.
  chunk_and_store-raises :
      (document : Document) (run : Run backend.State) (cd : ChunkData) (cds : List ChunkData)
      → run.job.status ≡ IngestionStatus.extracting
      → backend.chunk document.content chunk_size chunk_overlap ≡ ok (cd ∷ cds)
      → ((chunk_and_store backend chunk_size chunk_overlap now document run).0 ≡ err (raised_on cd))
        × ((chunk_and_store backend chunk_size chunk_overlap now document run).1.store ≡ run.store)
  unfolding chunk_and_store advance advance_status ◌>>=◌
  chunk_and_store-raises document run cd cds status chunked =
      rw (status, chunked, build_chunks-first document cd cds) (refl, refl)

  pipeline-raises :
      (id : DocumentId) (document : Document) (run : Run backend.State) (cd : ChunkData)
      (cds : List ChunkData)
      → run.job.status ≡ IngestionStatus.queued
      → (backend.get_by_id id run.store).0 ≡ ok (some document)
      → is_nonempty (strip document.content) ≡ true
      → backend.chunk document.content chunk_size chunk_overlap ≡ ok (cd ∷ cds)
      → ((pipeline backend chunk_size chunk_overlap now id run).0 ≡ err (raised_on cd))
        × ((pipeline backend chunk_size chunk_overlap now id run).1.store
            ≡ (backend.get_by_id id run.store).1)
  unfolding pipeline advance advance_status process_found on_store ◌>>=◌
  pipeline-raises id document run cd cds status found full chunked =
      rw (status, found, full) (chunk_and_store-raises document _ cd cds refl chunked)

  -- If the job is queued, the document is found and has content that is not blank, and the chunking
  -- strategy returns at least one chunk, then the job ends FAILED: `Chunk(…)` is called without the
  -- tenant that its class requires. The message is "Pipeline failed: " and the text of pydantic's
  -- error, or, if counting the tokens of the first chunk raises an Exception, the text of that one.
  -- No chunk is saved, embedded or stored: the repositories have seen the lookup of the document
  -- and the report of the failure alone.
  pub execute-fails :
      (id : DocumentId) (document : Document) (run : Run backend.State) (cd : ChunkData)
      (cds : List ChunkData)
      → run.job.status ≡ IngestionStatus.queued
      → (backend.get_by_id id run.store).0 ≡ ok (some document)
      → is_nonempty (strip document.content) ≡ true
      → backend.chunk document.content chunk_size chunk_overlap ≡ ok (cd ∷ cds)
      → is_exception (raised_on cd) ≡ true
      → ((execute backend chunk_size chunk_overlap now id run).1.job.status
          ≡ IngestionStatus.failed)
        × ((execute backend chunk_size chunk_overlap now id run).1.job.error_message
            ≡ some (codes "Pipeline failed: " ++ message (raised_on cd)))
        × ((execute backend chunk_size chunk_overlap now id run).1.store
            ≡ (report_failure backend chunk_size chunk_overlap now id
                (codes "Pipeline failed: " ++ message (raised_on cd))
                (backend.get_by_id id run.store).1).1)
  unfolding execute handle recover fail on_job on_store ◌>>=◌
  execute-fails id document run cd cds status found full chunked caught =
      let (raised, store) = pipeline-raises id document run cd cds status found full chunked in
      rw (raised, store, caught) (refl, refl, refl)
