-- ===== src/UseCase/Task/Retries.antt =====
-- The attempts of a task.
use ai_backend_api.Base.{ℕ, suc, ◌<◌, ◌≤◌, Bool, false, some, [], ◌∷◌, leb, ◌≡◌, refl, arith}
use ai_backend_api.Base.Text.{Text, codes}
use ai_backend_api.Base.Result.{err}
use ai_backend_api.Entity.Values.{
  document_id_from_str-some, job_id_from_str-some, tenant_id_from_str-some,
}
use ai_backend_api.Errors.{Exc, is_exception}
use ai_backend_api.Exec.{◌>>=◌, handle}
use ai_backend_api.UseCase.Task.{
  TaskBackend, World, process_document_task, task_body, task_failed, attempts,
}

abbrev pub unexpected_tenant : Text
unexpected_tenant =
    codes "ProcessDocumentUseCase.execute() got an unexpected keyword argument 'tenant_id'"

module _ (backend : TaskBackend) where
  -- The identifiers of the task are UUIDs.
  pub record AreUuids (t d j : Text) : Type 0 where
    pub tenant : Text
    pub document : Text
    pub job : Text
    pub tenant_parsed : backend.parse_uuid t ≡ some tenant
    pub document_parsed : backend.parse_uuid d ≡ some document
    pub job_parsed : backend.parse_uuid j ≡ some job

  -- The `except` block runs with the `TypeError` of the call, and an attempt before the last writes
  -- nothing.
  task-raises :
      (max_retries attempt : ℕ) (t d j : Text) (world : World backend)
      → AreUuids t d j
      → attempt < max_retries
      → process_document_task backend max_retries attempt t d j world
        ≡ (err (Exc.type_error unexpected_tenant), world)
  unfolding process_document_task task_body task_failed ◌>>=◌ handle is_exception
  task-raises max_retries attempt t d j world ids h =
      let parse = backend.parse_uuid in
      let e1 = document_id_from_str-some parse d ids.document ids.document_parsed in
      let e2 = tenant_id_from_str-some parse t ids.tenant ids.tenant_parsed in
      let e3 = job_id_from_str-some parse j ids.job ids.job_parsed in
      let early : leb max_retries attempt ≡ false = ground (arith, h) in rw (e1, e2, e3, early) refl

  -- A task whose identifiers are UUIDs raises a `TypeError` at its first attempt, since it calls
  -- the use case with a tenant that the use case does not take. If ARQ does not run a job again on
  -- a `TypeError`, this is the only attempt, however many are left; and if `max_retries` is 2 at
  -- least, the document is never processed and nothing is written to the dead letter queue: the
  -- repositories and the queue stay as they are.
  pub attempts-single :
      (reruns : Exc → Bool) (max_retries left : ℕ) (t d j : Text) (world : World backend)
      → AreUuids t d j
      → reruns (Exc.type_error unexpected_tenant) ≡ false
      → 2 ≤ max_retries
      → attempts backend reruns max_retries 1 (suc left) t d j world
        ≡ (Exc.type_error unexpected_tenant ∷ [], world)
  unfolding attempts
  attempts-single reruns max_retries left t d j world ids final h =
      rw (task-raises max_retries 1 t d j world ids (omega arith), final) refl
