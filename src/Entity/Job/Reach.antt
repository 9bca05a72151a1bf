-- ===== src/Entity/Job/Reach.antt =====
-- The transitions of a job as a relation, and what holds of every job that the methods can reach.
use ai_backend_api.Base.{
  ℕ, ◌≡◌, ◌≢◌, refl, sym, ap, ◌∙◌, Bool, none, some, true, false, List, [], ◌∷◌, arith, take,
  length, All, inl, inr,
}
use ai_backend_api.Base.Text.{Text}
use ai_backend_api.Base.Result.{Result, ok, ◌>>=◌, Result-cases, >>=-eq-ok}
use ai_backend_api.Entity.Job.{
  IngestionStatus, IngestionJob, advance_status, record_progress, fail, complete, status_in,
  valid_transitions,
}

-- The documented pipeline: each stage leads to the next or to FAILED, and FAILED back to QUEUED.
pub data Edge : IngestionStatus → IngestionStatus → Type 0 where
  start : Edge IngestionStatus.queued IngestionStatus.extracting
  chunk : Edge IngestionStatus.extracting IngestionStatus.chunking
  embed : Edge IngestionStatus.chunking IngestionStatus.embedding
  store : Edge IngestionStatus.embedding IngestionStatus.storing
  finish : Edge IngestionStatus.storing IngestionStatus.completed
  fail_queued : Edge IngestionStatus.queued IngestionStatus.failed
  fail_extracting : Edge IngestionStatus.extracting IngestionStatus.failed
  fail_chunking : Edge IngestionStatus.chunking IngestionStatus.failed
  fail_embedding : Edge IngestionStatus.embedding IngestionStatus.failed
  fail_storing : Edge IngestionStatus.storing IngestionStatus.failed
  retry : Edge IngestionStatus.failed IngestionStatus.queued

Edge-valid : {s t : IngestionStatus} → Edge s t → status_in t (valid_transitions s) ≡ true
Edge-valid start = refl
Edge-valid chunk = refl
Edge-valid embed = refl
Edge-valid store = refl
Edge-valid finish = refl
Edge-valid fail_queued = refl
Edge-valid fail_extracting = refl
Edge-valid fail_chunking = refl
Edge-valid fail_embedding = refl
Edge-valid fail_storing = refl
Edge-valid retry = refl

valid-Edge : (s t : IngestionStatus) → status_in t (valid_transitions s) ≡ true → Edge s t
valid-Edge IngestionStatus.queued IngestionStatus.extracting h = start
valid-Edge IngestionStatus.queued IngestionStatus.failed h = fail_queued
valid-Edge IngestionStatus.extracting IngestionStatus.chunking h = chunk
valid-Edge IngestionStatus.extracting IngestionStatus.failed h = fail_extracting
valid-Edge IngestionStatus.chunking IngestionStatus.embedding h = embed
valid-Edge IngestionStatus.chunking IngestionStatus.failed h = fail_chunking
valid-Edge IngestionStatus.embedding IngestionStatus.storing h = store
valid-Edge IngestionStatus.embedding IngestionStatus.failed h = fail_embedding
valid-Edge IngestionStatus.storing IngestionStatus.completed h = finish
valid-Edge IngestionStatus.storing IngestionStatus.failed h = fail_storing
valid-Edge IngestionStatus.failed IngestionStatus.queued h = retry
valid-Edge _ _ h = absurd (cc)

-- `advance_status` returns a job exactly when the two statuses are joined by an edge of the
-- documented pipeline; the job that it returns has the new status and the same counters, error
-- message and completion time.
pub advance_status_iff :
    (now : ℕ) (t : IngestionStatus) (job : IngestionJob)
    → ((job' : IngestionJob)
        → advance_status now t job ≡ ok job'
        → Edge job.status t
          × (job'.status ≡ t)
          × (job'.processed_chunks ≡ job.processed_chunks)
          × (job'.total_chunks ≡ job.total_chunks)
          × (job'.error_message ≡ job.error_message)
          × (job'.completed_at ≡ job.completed_at))
      × (Edge job.status t → (job' : IngestionJob) × (advance_status now t job ≡ ok job'))
unfolding advance_status
advance_status_iff now t job = (
  λ job' e. (
    valid-Edge job.status t (ground arith),
    ground arith,
    ground arith,
    ground arith,
    ground arith,
    ground arith,
  ),
  λ edge. elim (Result-cases (advance_status now t job)) [
    | inl r ↦ r
    | inr (m, e) ↦ absurd (ground (arith, Edge-valid edge))
  ],
)

-- `targets` in turn; the first refusal ends the run.
unfoldable pub advance_all : ℕ → IngestionJob → List IngestionStatus → Result Text IngestionJob
advance_all now job [] = ok job
advance_all now job (t ∷ ts) = do job' ← advance_status now t job; advance_all now job' ts

abbrev pub stages_after : IngestionStatus → List IngestionStatus
stages_after IngestionStatus.queued =
    IngestionStatus.extracting ∷ IngestionStatus.chunking ∷ IngestionStatus.embedding
    ∷ IngestionStatus.storing ∷ IngestionStatus.completed ∷ []
stages_after IngestionStatus.extracting =
    IngestionStatus.chunking ∷ IngestionStatus.embedding ∷ IngestionStatus.storing
    ∷ IngestionStatus.completed ∷ []
stages_after IngestionStatus.chunking =
    IngestionStatus.embedding ∷ IngestionStatus.storing ∷ IngestionStatus.completed ∷ []
stages_after IngestionStatus.embedding = IngestionStatus.storing ∷ IngestionStatus.completed ∷ []
stages_after IngestionStatus.storing = IngestionStatus.completed ∷ []
stages_after _ = []

advanced-status :
    (now : ℕ) (t : IngestionStatus) (job job' : IngestionJob)
    → advance_status now t job ≡ ok job'
    → (job'.status ≡ t) × (status_in t (valid_transitions job.status) ≡ true)
unfolding advance_status
advanced-status now t job job' e = (ground arith, ground arith)

one_stage :
    (s t : IngestionStatus)
    → status_in t (valid_transitions s) ≡ true
    → s ≢ IngestionStatus.failed
    → t ≢ IngestionStatus.failed
    → stages_after s ≡ t ∷ stages_after t
one_stage s t h ns nt = ground arith

-- A run of accepted advances that never visits FAILED follows the pipeline stage by stage: its
-- targets are the stages after the job's status, in order and without a gap.
pub advance_all-in_order :
    (now : ℕ) (ts : List IngestionStatus) (job job' : IngestionJob)
    → job.status ≢ IngestionStatus.failed
    → All (λ t. t ≢ IngestionStatus.failed) ts
    → advance_all now job ts ≡ ok job'
    → ts ≡ take (length ts) (stages_after job.status)
unfolding advance_all
advance_all-in_order now [] job job' ns h e = refl
advance_all-in_order now (t ∷ ts) job job' ns h e =
    let (mid, first, rest) = >>=-eq-ok (advance_status now t job) (λ j. advance_all now j ts) e in
    let (at_t, valid) = advanced-status now t job mid first in
    let ih = advance_all-in_order now ts mid job' (λ f. h.0 (sym at_t ∙ f)) h.1 rest in
    rw (one_stage job.status t valid ns h.0)
      (ap (λ (l : List IngestionStatus). t ∷ l) (rw at_t at ih))

-- Each method that the pipeline calls, `complete` only where it calls it, in STORING.
pub data Step (job job' : IngestionJob) : Type 0 where
  advance : (now : ℕ) (t : IngestionStatus) → advance_status now t job ≡ ok job' → Step job job'
  progressed : (now p n : ℕ) → job' ≡ record_progress now p n job → Step job job'
  failing : (now : ℕ) (e : Text) → job' ≡ fail now e job → Step job job'
  completing :
      (now : ℕ) → job.status ≡ IngestionStatus.storing → job' ≡ complete now job → Step job job'

pub data Reach (job : IngestionJob) : IngestionJob → Type 0 where
  here : Reach job job
  next : {j k : IngestionJob} → Reach job j → Step j k → Reach job k

-- Past QUEUED and outside FAILED the job has a start time, and so it has once it has a completion
-- time.
abbrev pub needs_start : IngestionStatus → Bool
needs_start IngestionStatus.queued = false
needs_start IngestionStatus.failed = false
needs_start _ = true

pub record IsTracked (job : IngestionJob) : Type 0 where
  pub started : needs_start job.status ≡ true → job.started_at ≢ none
  pub ended : job.completed_at ≢ none → job.started_at ≢ none

Step-IsTracked : (j k : IngestionJob) → Step j k → IsTracked j → IsTracked k
unfolding advance_status record_progress fail complete
Step-IsTracked j k (advance now t e) v = record {
  started = λ h n. ground (arith, v.started);
  ended = λ h n. ground (arith, v.ended);
}
Step-IsTracked j k (progressed now p n e) v = record {
  started = λ h n. ground (arith, v.started);
  ended = λ h n. ground (arith, v.ended);
}
Step-IsTracked j k (failing now m e) v = record {
  started = λ h n. ground (arith, v.started);
  ended = λ h n. ground (arith, v.ended);
}
Step-IsTracked j k (completing now s e) v = record {
  started = λ h n. ground (arith, v.started);
  ended = λ h n. ground (arith, v.started);
}

-- Whatever a run of the pipeline does to a tracked job, the job has a start time in every status
-- past QUEUED but FAILED, and whenever it has a completion time.
pub Reach-IsTracked : {j k : IngestionJob} → IsTracked j → Reach j k → IsTracked k
Reach-IsTracked v here = v
Reach-IsTracked v (next r s) = Step-IsTracked _ _ s (Reach-IsTracked v r)

-- COMPLETED is final for `advance_status`, but `complete` and `fail` check nothing: from any
-- status, `complete` makes the job COMPLETED and `fail` makes it FAILED, also where the table of
-- transitions has no such edge.
pub complete-and-fail_unchecked :
    (now : ℕ) (error : Text) (job : IngestionJob) (t : IngestionStatus)
    → (¬ Edge IngestionStatus.completed t)
      × ((complete now job).status ≡ IngestionStatus.completed)
      × ((fail now error (complete now job)).status ≡ IngestionStatus.failed)
      × ((fail now error (complete now job)).completed_at ≡ some now)
unfolding fail complete
complete-and-fail_unchecked now error job t = (λ edge. cc (Edge-valid edge), refl, refl, refl)
