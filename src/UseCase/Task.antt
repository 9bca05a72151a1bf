-- ===== src/UseCase/Task.antt =====
-- app/infrastructure/queue/arq_worker.py: the ARQ task of a document, its retries and its dead
-- letter queue. The use case's collaborators, the Redis sorted set and the exceptions on which ARQ
-- runs a job again are parameters.
pub mod Retries
use ai_backend_api.Base.{
  ℕ, zero, suc, Bool, Option, none, some, List, [], ◌∷◌, ◌++◌, leb, if◌then◌else◌,
}
use ai_backend_api.Base.Text.{Text, codes}
use ai_backend_api.Base.Result.{Result, ok, err}
use ai_backend_api.Call.{Signature, check_call}
use ai_backend_api.Entity.Values.{
  UuidParser, DocumentId, IngestionJobId, TenantId, document_id_from_str, job_id_from_str,
  tenant_id_from_str,
}
use ai_backend_api.Entity.Identity.{Entity}
use ai_backend_api.Entity.Job.{IngestionJob, job_new}
use ai_backend_api.Errors.{Exc, message}
use ai_backend_api.Exec.{Exec, pure, raise, lift, ◌>>=◌, ◌>>◌, handle}
use ai_backend_api.UseCase.Process.{Backend, Run}
use ai_backend_api.UseCase.Process

-- What is written to the dead letter queue; the time of the failure is left out.
pub record DlqEntry : Type 0 where
  pub tenant_id : Text
  pub document_id : Text
  pub job_id : Text
  pub error : Text

pub record TaskResult : Type 0 where
  pub document_id : Text
  pub status : Text

pub record TaskBackend : Type 1 where
  pub process : Backend
  pub Queue : Type 0
  -- `redis.zadd(_DLQ_KEY, {entry: time.time()})`
  pub zadd : DlqEntry → Exec Queue (Unit {0})
  pub parse_uuid : UuidParser
  pub job_entity : Entity
  pub chunk_size : ℕ
  pub chunk_overlap : ℕ
  pub now : ℕ

-- `async def execute(self, document_id, job)` of the use case
abbrev pub process_signature : Signature
process_signature = record {
  function = codes "ProcessDocumentUseCase.execute";
  parameters = codes "self" ∷ codes "document_id" ∷ codes "job" ∷ [];
  required = codes "self" ∷ codes "document_id" ∷ codes "job" ∷ [];
}

abbrev pub or_raise : {A : Type 0} → Option A → Result Exc A
or_raise none = err (Exc.value_error (codes "badly formed hexadecimal UUID string"))
or_raise (some a) = ok a

module _ (backend : TaskBackend) where
  -- The repositories and the dead letter queue.
  abbrev pub World : Type 0
  World = backend.process.State × backend.Queue

  abbrev pub on_queue : {A : Type 0} → Exec backend.Queue A → Exec World A
  on_queue m (s, queue) = let (r, queue') = m queue in (r, (s, queue'))

  -- `await process_use_case.execute(doc_id, ingestion_job)` on a job that nothing else holds
  abbrev pub on_process : DocumentId → IngestionJob → Exec World (Unit {0})
  unfolding Process.execute
  on_process id job (s, queue) =
      let (r, run) =
        Process.execute backend.process backend.chunk_size backend.chunk_overlap backend.now id
          (record { job = job; store = s }) in
      (r, (run.store, queue))

  -- `_write_to_dlq`: a failure to write is dropped.
  unfoldable pub write_to_dlq : DlqEntry → Exec World (Unit {0})
  write_to_dlq entry = handle (on_queue (backend.zadd entry)) (λ _. pure tt)

  -- The body of the `try` block; the call passes `tenant_id`.
  unfoldable pub task_body : DocumentId → IngestionJob → Exec World (Unit {0})
  task_body id job =
      lift (check_call process_signature 3 (codes "tenant_id" ∷ [])) >> on_process id job

  -- The `except` block.
  unfoldable pub task_failed : ℕ → ℕ → DlqEntry → Exc → Exec World (Unit {0})
  task_failed max_retries attempt entry exc =
      if leb max_retries attempt then write_to_dlq entry >> raise exc else raise exc

  unfoldable pub process_document_task : ℕ → ℕ → Text → Text → Text → Exec World TaskResult
  unfolding job_new task_body task_failed
  process_document_task max_retries attempt tenant_id document_id job_id = do
    doc_id ← lift (or_raise (document_id_from_str backend.parse_uuid document_id))
    t_id ← lift (or_raise (tenant_id_from_str backend.parse_uuid tenant_id))
    j_id ← lift (or_raise (job_id_from_str backend.parse_uuid job_id))
    handle (task_body doc_id (job_new backend.job_entity j_id doc_id)) (λ exc.
        task_failed max_retries attempt
          (record {
            tenant_id = tenant_id;
            document_id = document_id;
            job_id = job_id;
            error = message exc;
          })
          exc)
    pure (record { document_id = document_id; status = codes "completed" })

  abbrev retry : (Exc → Bool) → Result Exc TaskResult → World → List Exc × World → List Exc × World
  retry reruns (ok _) world again = ([], world)
  retry reruns (err e) world again = if reruns e then (e ∷ again.0, again.1) else (e ∷ [], world)

  -- ARQ starts a job again, with the next number, as long as it raises an exception on which it
  -- reruns a job (`reruns`) and has attempts left: what the attempts raise, and the world that they
  -- leave.
  unfoldable pub attempts : (Exc → Bool) → ℕ → ℕ → ℕ → Text → Text → Text → World → List Exc × World
  attempts reruns max_retries attempt zero tenant_id document_id job_id world = ([], world)
  attempts reruns max_retries attempt (suc left) tenant_id document_id job_id world =
      let run = process_document_task max_retries attempt tenant_id document_id job_id world in
      retry reruns run.0 run.1
        (attempts reruns max_retries (suc attempt) left tenant_id document_id job_id run.1)
