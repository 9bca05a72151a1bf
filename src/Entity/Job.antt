-- ===== src/Entity/Job.antt =====
-- app/domain/entities/ingestion_job.py
pub mod Reach
use ai_backend_api.Base.{
  ℕ, Bool, Option, none, some, true, false, List, [], ◌∷◌, ◌++◌, ◌==◌, ◌||◌, if◌then◌else◌,
}
use ai_backend_api.Base.Text.{Text, codes}
use ai_backend_api.Base.Result.{Result, ok, err}
use ai_backend_api.Entity.Values.{DocumentId, IngestionJobId}
use ai_backend_api.Entity.Identity.{Entity, update}

pub data IngestionStatus : Type 0 where
  queued extracting chunking embedding storing completed failed : IngestionStatus

pub status_value : IngestionStatus → Text
status_value IngestionStatus.queued = codes "queued"
status_value IngestionStatus.extracting = codes "extracting"
status_value IngestionStatus.chunking = codes "chunking"
status_value IngestionStatus.embedding = codes "embedding"
status_value IngestionStatus.storing = codes "storing"
status_value IngestionStatus.completed = codes "completed"
status_value IngestionStatus.failed = codes "failed"

abbrev pub status_index : IngestionStatus → ℕ
status_index IngestionStatus.queued = 0
status_index IngestionStatus.extracting = 1
status_index IngestionStatus.chunking = 2
status_index IngestionStatus.embedding = 3
status_index IngestionStatus.storing = 4
status_index IngestionStatus.completed = 5
status_index IngestionStatus.failed = 6

abbrev pub status_eq : IngestionStatus → IngestionStatus → Bool
status_eq s t = status_index s == status_index t

-- `_VALID_TRANSITIONS.get(status, set())`
abbrev pub valid_transitions : IngestionStatus → List IngestionStatus
valid_transitions IngestionStatus.queued = IngestionStatus.extracting ∷ IngestionStatus.failed ∷ []
valid_transitions IngestionStatus.extracting =
    IngestionStatus.chunking ∷ IngestionStatus.failed ∷ []
valid_transitions IngestionStatus.chunking = IngestionStatus.embedding ∷ IngestionStatus.failed ∷ []
valid_transitions IngestionStatus.embedding = IngestionStatus.storing ∷ IngestionStatus.failed ∷ []
valid_transitions IngestionStatus.storing = IngestionStatus.completed ∷ IngestionStatus.failed ∷ []
valid_transitions IngestionStatus.completed = []
valid_transitions IngestionStatus.failed = IngestionStatus.queued ∷ []

abbrev pub status_in : IngestionStatus → List IngestionStatus → Bool
status_in s [] = false
status_in s (t ∷ ts) = status_eq s t || status_in s ts

pub record IngestionJob : Type 0 where
  pub entity : Entity
  pub job_id : IngestionJobId
  pub document_id : DocumentId
  pub status : IngestionStatus
  pub total_chunks : ℕ
  pub processed_chunks : ℕ
  pub error_message : Option Text
  pub started_at : Option ℕ
  pub completed_at : Option ℕ

-- `IngestionJob(job_id=…, document_id=…)` with the defaults of the class.
unfoldable pub job_new : Entity → IngestionJobId → DocumentId → IngestionJob
job_new entity job_id document_id = record {
  entity = entity;
  job_id = job_id;
  document_id = document_id;
  status = IngestionStatus.queued;
  total_chunks = 0;
  processed_chunks = 0;
  error_message = none;
  started_at = none;
  completed_at = none;
}

-- `self.started_at is None`
abbrev pub stamp : Option ℕ → ℕ → Option ℕ
stamp none now = some now
stamp (some t) now = some t

-- The `ValueError` of an invalid transition leaves the job as it was.
unfoldable pub advance_status : ℕ → IngestionStatus → IngestionJob → Result Text IngestionJob
unfolding update status_value
advance_status now new_status job =
    if status_in new_status (valid_transitions job.status)
    then ok (record job {
      status = new_status;
      started_at =
          if status_eq new_status IngestionStatus.extracting
          then stamp job.started_at now
          else job.started_at;
      entity = update now job.entity;
    })
    else err (
        codes "Invalid transition: "
        ++ (status_value job.status ++ (codes " → " ++ status_value new_status)))

unfoldable pub record_progress : ℕ → ℕ → ℕ → IngestionJob → IngestionJob
unfolding update
record_progress now processed total job = record job {
  processed_chunks = processed;
  total_chunks = total;
  entity = update now job.entity;
}

unfoldable pub fail : ℕ → Text → IngestionJob → IngestionJob
unfolding update
fail now error job = record job {
  status = IngestionStatus.failed;
  error_message = some error;
  entity = update now job.entity;
}

unfoldable pub complete : ℕ → IngestionJob → IngestionJob
unfolding update
complete now job = record job {
  status = IngestionStatus.completed;
  completed_at = some now;
  error_message = none;
  entity = update now job.entity;
}

-- A float of the source as the exact fraction `num / den`.
pub record Fraction : Type 0 where
  pub num : ℕ
  pub den : ℕ

unfoldable pub progress : IngestionJob → Fraction
progress job =
    if job.total_chunks == 0
    then record { num = 0; den = 1 }
    else record { num = job.processed_chunks; den = job.total_chunks }
