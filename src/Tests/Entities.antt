-- ===== src/Tests/Entities.antt =====
-- Examples on the entities and their repositories.
use ai_backend_api.Base.{◌≡◌, refl, true, none, some, [], ◌∷◌, take}
use ai_backend_api.Base.Text.{Text, codes}
use ai_backend_api.Entity.Identity.{Entity}
use ai_backend_api.Entity.Job.{IngestionJob, IngestionStatus, advance_status}
use ai_backend_api.Entity.Job.Reach.{advance_all, stages_after, advance_all-in_order}
use ai_backend_api.Entity.Document.{Document, DocumentStatus}
use ai_backend_api.Entity.Tenant.{Tenant, TenantPlan, create}

abbrev entity : Entity
entity = record { id = codes "e"; created_at = 1; updated_at = 1 }

abbrev job : IngestionJob
job = record {
  entity = entity;
  job_id = record { value = codes "j" };
  document_id = record { value = codes "d" };
  status = IngestionStatus.queued;
  total_chunks = 0;
  processed_chunks = 0;
  error_message = none;
  started_at = none;
  completed_at = none;
}

abbrev extracting_job : IngestionJob
extracting_job = record job {
  status = IngestionStatus.extracting;
  started_at = some 5;
  entity = record { id = codes "e"; created_at = 1; updated_at = 5 };
}

advance_all-in_order_example :
    IngestionStatus.extracting ∷ [] ≡ take 1 (stages_after IngestionStatus.queued)
unfolding advance_all advance_status
advance_all-in_order_example =
    advance_all-in_order 5 (IngestionStatus.extracting ∷ []) job extracting_job (λ e. cc)
      ((λ e. cc), tt) refl

abbrev document : Document
document = record {
  entity = entity;
  tenant_id = record { value = codes "t" };
  document_id = record { value = codes "d" };
  collection_id = record { value = codes "c" };
  title = codes "T";
  content = codes "Hello";
  content_type = codes "text/plain";
  metadata = [];
  status = DocumentStatus.pending;
  chunk_count = 0;
  token_count = 0;
  error_message = none;
}

abbrev tenant : Tenant
tenant = record {
  entity = entity;
  tenant_id = record { value = codes "t" };
  name = codes "Acme";
  api_key_hash = codes "h";
  plan = TenantPlan.free;
  is_active = true;
  tokens_used_this_month = 99_990;
  total_tokens_used = 99_990;
  metadata = [];
}

abbrev twice : Text → Text
twice t = codes "#"

abbrev created : Tenant × Text
created =
    create twice (codes "ab") entity (record { value = codes "t" }) (codes "Acme") TenantPlan.pro
