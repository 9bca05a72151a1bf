-- ===== src/UseCase/Process/Outcome.antt =====
-- How a run of the pipeline ends.
use ai_backend_api.Base.{
  ℕ, ◌≡◌, ◌∙◌, ap, true, false, ◌⊎◌, inl, inr, refl, sym, subst, Option, none, some, List, ◌++◌,
  Bool-cases,
}
use ai_backend_api.Base.Text.{Text, codes, strip, is_nonempty}
use ai_backend_api.Base.Result.{Result, ok, err, err_inj}
use ai_backend_api.Entity.Values.{DocumentId}
use ai_backend_api.Entity.Document.{Document}
use ai_backend_api.Entity.Job.{IngestionJob, IngestionStatus, fail, complete}
use ai_backend_api.Entity.Chunk.{Chunk}
use ai_backend_api.Errors.{Exc, message, is_exception}
use ai_backend_api.Exec.{Exec, pure, continue, recovered, handle, ◌>>=◌, ◌>>◌, handle_ind}
use ai_backend_api.UseCase.Process.{
  Backend, Run, on_store, on_job, embed_and_store, chunk_and_store, process_found, pipeline,
  fail_found, report_failure, recover, execute,
}

-- The job has reached one of its two ends.
abbrev pub IsOver : IngestionJob → Type 0
IsOver job = (job.status ≡ IngestionStatus.completed) ⊎ (job.status ≡ IngestionStatus.failed)

-- If a method returns, the run that it leaves is over.
record OverOnReturn {S A : Type 0} (m : Exec (Run S) A) : Type 0 where
  at : (run : Run S) (a : A) → (m run).0 ≡ ok a → IsOver (m run).1.job

module _ {S A B : Type 0} where
  continue-Over :
      (f : A → Exec (Run S) B) (r : Result Exc A) (run : Run S) (b : B)
      → ((a : A) → OverOnReturn (f a))
      → (continue r f run).0 ≡ ok b
      → IsOver (continue r f run).1.job
  continue-Over f (ok a) run b h e = (h a).at run b e
  continue-Over f (err x) run b h e = absurd (cc)

  bind-Over :
      (m : Exec (Run S) A) (f : A → Exec (Run S) B)
      → ((a : A) → OverOnReturn (f a))
      → OverOnReturn (m >>= f)
  unfolding ◌>>=◌
  bind-Over m f h = record { at = λ run b e. continue-Over f (m run).0 (m run).1 b h e }

module _ (backend : Backend) (chunk_size chunk_overlap now : ℕ) where
  finish-Over :
      (m : Exec backend.State (Unit {0}))
      → OverOnReturn (on_job {State = backend.State} (complete now) >> on_store m)
  unfolding on_job on_store complete ◌>>=◌
  finish-Over m = record { at = λ run a e. inl refl }

  embed_and_store-Over :
      (document : Document) (chunks : List Chunk)
      → OverOnReturn (embed_and_store backend chunk_size chunk_overlap now document chunks)
  unfolding embed_and_store
  embed_and_store-Over document chunks = search (bind-Over, finish-Over)

  chunk_and_store-Over :
      (document : Document)
      → OverOnReturn (chunk_and_store backend chunk_size chunk_overlap now document)
  unfolding chunk_and_store
  chunk_and_store-Over document = search (bind-Over, embed_and_store-Over) depth 7

  fail-Over : (error : Text) → OverOnReturn (on_job {State = backend.State} (fail now error))
  unfolding on_job fail
  fail-Over error = record { at = λ run a e. inr refl }

  blank-Over :
      (error : Text) (m : Exec backend.State (Unit {0}))
      → OverOnReturn (on_job {State = backend.State} (fail now error) >> on_store m)
  unfolding on_job on_store fail ◌>>=◌
  blank-Over error m = record { at = λ run a e. inr refl }

  process_found-Over :
      (id : DocumentId) (found : Option Document)
      → OverOnReturn (process_found backend chunk_size chunk_overlap now id found)
  unfolding process_found
  process_found-Over id none = fail-Over _
  process_found-Over id (some document) = elim (Bool-cases (is_nonempty (strip document.content))) [
    | inl full ↦ rw full (chunk_and_store-Over document)
    | inr blank ↦ rw blank (blank-Over _ _)
  ]

  pipeline-Over :
      (id : DocumentId) → OverOnReturn (pipeline backend chunk_size chunk_overlap now id)
  unfolding pipeline
  pipeline-Over id = search (bind-Over, process_found-Over)

  -- A method returns or raises `CancelledError`.
  abbrev NoException : {A B : Type 0} → Result Exc A × B → Type 0
  NoException r = (e : Exc) → r.0 ≡ err e → is_exception e ≡ false

  report_failure-NoException :
      (id : DocumentId) (error : Text) (s : backend.State)
      → NoException (report_failure backend chunk_size chunk_overlap now id error s)
  unfolding report_failure
  report_failure-NoException id error s =
      handle_ind (λ r. NoException r)
        (backend.get_by_id id >>= fail_found backend chunk_size chunk_overlap now error)
        (λ _. pure tt) s (λ a e x h. absurd (cc)) (λ y caught e x h. absurd (cc))
        (λ y passed e x h. subst (λ z. is_exception z ≡ false) (err_inj refl h) passed)

  recover_lem :
      (id : DocumentId) (exc : Exc) (run : Run backend.State)
      → NoException (recover backend chunk_size chunk_overlap now id exc run)
        × ((recover backend chunk_size chunk_overlap now id exc run).1.job
            ≡ fail now (codes "Pipeline failed: " ++ message exc) run.job)
  unfolding recover ◌>>=◌ on_job on_store
  recover_lem id exc run =
      (report_failure-NoException id (codes "Pipeline failed: " ++ message exc) run.store, refl)

  -- Whatever the repositories, the embedding provider, the token counter and the chunking strategy
  -- do or raise, as long as each call ends, and whatever the status of the job: a run of the
  -- pipeline lets no `Exception` out; when it returns, the job is COMPLETED or FAILED; an
  -- `Exception` inside of it fails the job with its text; and a cancellation goes through with the
  -- job as it was at that moment.
  pub execute-IsOver :
      (id : DocumentId) (run : Run backend.State)
      → ((e : Exc)
          → (execute backend chunk_size chunk_overlap now id run).0 ≡ err e
          → is_exception e ≡ false)
        × ((execute backend chunk_size chunk_overlap now id run).0 ≡ ok tt
            → IsOver (execute backend chunk_size chunk_overlap now id run).1.job)
        × ((e : Exc)
            → is_exception e ≡ true
            → (pipeline backend chunk_size chunk_overlap now id run).0 ≡ err e
            → (execute backend chunk_size chunk_overlap now id run).1.job
              ≡ fail now
                  (codes "Pipeline failed: " ++ message e)
                  (pipeline backend chunk_size chunk_overlap now id run).1.job)
        × ((pipeline backend chunk_size chunk_overlap now id run).0 ≡ err Exc.cancelled_error
            → execute backend chunk_size chunk_overlap now id run
              ≡ pipeline backend chunk_size chunk_overlap now id run)
  unfolding execute handle is_exception
  execute-IsOver id run =
      let m = pipeline backend chunk_size chunk_overlap now id in
      let recovering = recover backend chunk_size chunk_overlap now id in
      (
        handle_ind (λ r. NoException r) m recovering run (λ a e x h. absurd (cc))
            (λ y caught e. (recover_lem id y (m run).1).0)
            (λ y passed e x h. subst (λ z. is_exception z ≡ false) (err_inj refl h) passed),
        handle_ind (λ r. r.0 ≡ ok tt → IsOver r.1.job) m recovering run
            (λ a e h. (pipeline-Over id).at run a e)
            (λ y caught e h.
              subst IsOver (sym (recover_lem id y (m run).1).1) (unfold fail in inr refl))
            (λ y passed e h. absurd (cc)),
        λ e caught raised. rw (raised, caught) (recover_lem id e (m run).1).1,
        λ raised.
            ap (λ r. recovered r recovering (m run).1) raised
            ∙ ap (λ r. (r, (m run).1)) (sym raised),
      )
