-- ===== src/UseCase/Process.antt =====
-- app/application/use_cases/process_document.py: the ingestion pipeline. The repositories, the
-- embedding provider, the chunking strategy and the token counter are the abstract classes that the
-- use case is built from: a parameter. Each call of it ends; the chunking strategy that
-- app/container.py passes does so (Chunking.Token), the other one may not (Chunking.Simple). The
-- clock's readings are one number, since nothing depends on their differences.
pub mod Embedding
pub mod Outcome
pub mod Tenantless
use ai_backend_api.Base.{
  ℕ, zero, suc, ◌+◌, ◌-◌, ◌/◌, min, Bool, Option, none, some, List, [], ◌∷◌, ◌++◌, map, take, drop,
  length, if◌then◌else◌,
}
use ai_backend_api.Base.Text.{Text, codes, strip, is_nonempty}
use ai_backend_api.Base.Dict.{Dict}
use ai_backend_api.Base.Result
use ai_backend_api.Base.Result.{Result, ok, err}
use ai_backend_api.Entity.Values.{DocumentId, ChunkId, TenantId, EmbeddingVector, Value, str, int}
use ai_backend_api.Entity.Identity.{Entity}
use ai_backend_api.Entity.Document.{Document, mark_completed, mark_failed}
use ai_backend_api.Entity.Job.{
  IngestionJob, IngestionStatus, advance_status, record_progress, fail, complete,
}
use ai_backend_api.Entity.Chunk.{Chunk, chunk_new, set_embedding}
use ai_backend_api.Chunking.Data.{ChunkData}
use ai_backend_api.Errors.{Exc, message}
use ai_backend_api.Exec.{Exec, pure, raise, lift, modify, ◌>>=◌, ◌>>◌, handle}

-- A vector with its payload.
pub record Entry : Type 0 where
  pub chunk_id : ChunkId
  pub embedding : EmbeddingVector
  pub payload : Dict Value

pub record Backend : Type 1 where
  -- What the repositories and providers remember.
  pub State : Type 0
  pub get_by_id : DocumentId → Exec State (Option Document)
  pub update_document : Document → Exec State (Unit {0})
  pub save_many : List Chunk → Exec State (List Chunk)
  pub embed_batch : List Text → Exec State (List EmbeddingVector)
  pub upsert_many : List Entry → Exec State (Unit {0})
  pub chunk : Text → ℕ → ℕ → Result Exc (List ChunkData)
  -- It raises ValueError on a text with a special token.
  pub count_tokens : Text → Text → Result Exc ℕ
  -- `str()` of pydantic's error on a call of `Chunk` without `tenant_id`
  pub missing_tenant : Text
  -- `uuid4()` and timestamps of the n-th chunk of a run
  pub identity : ℕ → Entity × ChunkId

abbrev pub embedding_batch_size : ℕ
embedding_batch_size = 50

-- `sum(c.token_count for c in batch)`
unfoldable pub sum_tokens : List Chunk → ℕ
sum_tokens [] = 0
sum_tokens (c ∷ cs) = c.token_count + sum_tokens cs

-- `for chunk, embedding in zip(batch, embeddings, strict=True): chunk.set_embedding(embedding)`
unfoldable pub attach : ℕ → List Chunk → List EmbeddingVector → Result Exc (List Chunk)
unfolding set_embedding
attach now [] [] = ok []
attach now (c ∷ cs) (e ∷ es) =
    Result.◌>>=◌ (attach now cs es) (λ rest. ok (set_embedding now e c ∷ rest))
attach now _ _ = err (Exc.value_error (codes "zip() arguments have different lengths"))

-- The payload of a chunk's vector.
unfoldable pub payload : Document → Chunk → Dict Value
payload document c =
    (codes "document_id", str c.document_id.value)
    ∷ (codes "collection_id", str c.collection_id.value)
    ∷ (codes "content", str c.content)
    ∷ (codes "chunk_index", int c.chunk_index)
    ∷ (codes "document_title", str document.title)
    ∷ []

-- `entries`: the chunks that have an embedding.
unfoldable pub entries : Document → List Chunk → List Entry
unfolding payload
entries document [] = []
entries document (c ∷ cs) =
    let rest = entries document cs in
    elim c.embedding [
      | none ↦ rest
      | some e ↦
          record { chunk_id = c.chunk_id; embedding = e; payload = payload document c } ∷ rest
    ]

-- The number of rounds of `range(0, n, _EMBEDDING_BATCH_SIZE)`.
abbrev pub rounds : ℕ → ℕ
rounds n = (n + 49) / embedding_batch_size

-- The job, which the caller holds, and the state of the repositories.
pub record Run (State : Type 0) : Type 0 where
  pub job : IngestionJob
  pub store : State

module _ {State : Type 0} where
  unfoldable pub on_store : {A : Type 0} → Exec State A → Exec (Run State) A
  on_store m run = ((m run.store).0, record { job = run.job; store = (m run.store).1 })

  unfoldable pub on_job : (IngestionJob → IngestionJob) → Exec (Run State) (Unit {0})
  on_job f = modify (λ run. record { job = f run.job; store = run.store })

  abbrev advanced : Run State → Result Text IngestionJob → Result Exc (Unit {0}) × Run State
  advanced run (ok job) = (ok tt, record { job = job; store = run.store })
  advanced run (err e) = (err (Exc.value_error e), run)

  -- `job.advance_status(status)`, whose `ValueError` the pipeline catches
  unfoldable pub advance : ℕ → IngestionStatus → Exec (Run State) (Unit {0})
  advance now status run = advanced run (advance_status now status run.job)

module _ (backend : Backend) (chunk_size chunk_overlap now : ℕ) where
  -- `[Chunk(…) for cd in chunk_data_list]`; the call names no `tenant_id`.
  unfoldable pub build_chunks : ℕ → Document → List ChunkData → Result Exc (List Chunk)
  unfolding chunk_new
  build_chunks i document [] = ok []
  build_chunks i document (cd ∷ cds) =
      let (entity, chunk_id) = backend.identity i in
      Result.◌>>=◌
        (Result.◌>>=◌ (backend.count_tokens cd.content (codes "gpt-4o")) (λ token_count.
          chunk_new backend.missing_tenant none entity chunk_id document.document_id
            document.collection_id cd.content cd.chunk_index cd.start_char cd.end_char token_count))
        (λ c. Result.◌>>=◌ (build_chunks (suc i) document cds) (λ cs. ok (c ∷ cs)))

  -- One round of the embedding loop: the chunks before `batch_start`, the chunks from it on, and
  -- `total_tokens`.
  unfoldable pub embed_round :
      List Chunk × List Chunk × ℕ → Exec (Run backend.State) (List Chunk × List Chunk × ℕ)
  unfolding on_store on_job
  embed_round (embedded, rest, total_tokens) = do
    let batch = take embedding_batch_size rest
    embeddings ← on_store (backend.embed_batch (map (λ c. c.content) batch))
    attached ← lift (attach now batch embeddings)
    let count = length embedded + length rest
    on_job (record_progress now (min (length embedded + length batch) count) count)
    pure (embedded ++ attached, drop embedding_batch_size rest, total_tokens + sum_tokens batch)

  -- `for batch_start in range(0, len(chunks), _EMBEDDING_BATCH_SIZE)`
  unfoldable pub embed_loop :
      ℕ → List Chunk × List Chunk × ℕ → Exec (Run backend.State) (List Chunk × List Chunk × ℕ)
  embed_loop zero state = pure state
  embed_loop (suc n) state = do next ← embed_round state; embed_loop n next

  -- Stages 3 to 5 on the saved chunks.
  unfoldable pub embed_and_store : Document → List Chunk → Exec (Run backend.State) (Unit {0})
  unfolding on_store on_job advance embed_loop
  embed_and_store document chunks = do
    advance now IngestionStatus.embedding
    (embedded, rest, total_tokens) ← embed_loop (rounds (length chunks)) ([], chunks, 0)
    let done = embedded ++ rest
    advance now IngestionStatus.storing
    on_store (backend.upsert_many (entries document done))
    on_job (complete now)
    on_store (backend.update_document (mark_completed now (length done) total_tokens document))

  -- Stage 2 and what follows.
  unfoldable pub chunk_and_store : Document → Exec (Run backend.State) (Unit {0})
  unfolding on_store on_job advance
  chunk_and_store document = do
    advance now IngestionStatus.chunking
    chunk_data_list ← lift (backend.chunk document.content chunk_size chunk_overlap)
    chunks ← lift (build_chunks 0 document chunk_data_list)
    saved ← on_store (backend.save_many chunks)
    on_job (record_progress now 0 (length saved))
    embed_and_store document saved

  unfoldable pub process_found : DocumentId → Option Document → Exec (Run backend.State) (Unit {0})
  unfolding on_store on_job
  process_found document_id none =
      on_job (fail now (codes "Document " ++ (document_id.value ++ codes " not found")))
  process_found document_id (some document) =
      if is_nonempty (strip document.content) then chunk_and_store document else do
        on_job (fail now (codes "Document content is empty"))
        on_store
            (backend.update_document (mark_failed now (codes "Document content is empty") document))

  -- The body of the `try` block.
  unfoldable pub pipeline : DocumentId → Exec (Run backend.State) (Unit {0})
  unfolding on_store advance process_found
  pipeline document_id = do
    advance now IngestionStatus.extracting
    found ← on_store (backend.get_by_id document_id)
    process_found document_id found

  unfoldable pub fail_found : Text → Option Document → Exec backend.State (Unit {0})
  fail_found error_msg none = pure tt
  fail_found error_msg (some doc) = backend.update_document (mark_failed now error_msg doc)

  -- The inner `try`: a failure to report the failure is dropped.
  unfoldable pub report_failure : DocumentId → Text → Exec backend.State (Unit {0})
  unfolding fail_found
  report_failure document_id error_msg =
      handle (do doc ← backend.get_by_id document_id; fail_found error_msg doc) (λ _. pure tt)

  -- The `except` block.
  unfoldable pub recover : DocumentId → Exc → Exec (Run backend.State) (Unit {0})
  unfolding on_store on_job report_failure
  recover document_id exc = do
    let error_msg = codes "Pipeline failed: " ++ message exc
    on_job (fail now error_msg)
    on_store (report_failure document_id error_msg)

  unfoldable pub execute : DocumentId → Exec (Run backend.State) (Unit {0})
  unfolding pipeline recover
  execute document_id = handle (pipeline document_id) (recover document_id)
