-- ===== src/Entity/Document.antt =====
-- app/domain/entities/document.py
pub mod Lifecycle
use ai_backend_api.Base.{ℕ, Bool, Option, none, some, true, false}
use ai_backend_api.Base.Text.{Text}
use ai_backend_api.Base.Dict.{Dict}
use ai_backend_api.Entity.Values.{DocumentId, CollectionId, TenantId, Value}
use ai_backend_api.Entity.Identity.{Entity, update}

pub data DocumentStatus : Type 0 where
  pending processing completed failed : DocumentStatus

pub record Document : Type 0 where
  pub entity : Entity
  pub tenant_id : TenantId
  pub document_id : DocumentId
  pub collection_id : CollectionId
  pub title : Text
  pub content : Text
  pub content_type : Text
  pub metadata : Dict Value
  pub status : DocumentStatus
  pub chunk_count : ℕ
  pub token_count : ℕ
  pub error_message : Option Text

-- `Document(…)` with the defaults of the class.
unfoldable pub document_new :
    Entity → TenantId → DocumentId → CollectionId → Text → Text → Text → Dict Value → Document
document_new entity tenant_id document_id collection_id title content content_type metadata =
    record {
      entity = entity;
      tenant_id = tenant_id;
      document_id = document_id;
      collection_id = collection_id;
      title = title;
      content = content;
      content_type = content_type;
      metadata = metadata;
      status = DocumentStatus.pending;
      chunk_count = 0;
      token_count = 0;
      error_message = none;
    }

unfoldable pub mark_processing : ℕ → Document → Document
unfolding update
mark_processing now d = record d {
  status = DocumentStatus.processing;
  error_message = none;
  entity = update now d.entity;
}

unfoldable pub mark_completed : ℕ → ℕ → ℕ → Document → Document
unfolding update
mark_completed now chunk_count token_count d = record d {
  status = DocumentStatus.completed;
  chunk_count = chunk_count;
  token_count = token_count;
  error_message = none;
  entity = update now d.entity;
}

unfoldable pub mark_failed : ℕ → Text → Document → Document
unfolding update
mark_failed now error d = record d {
  status = DocumentStatus.failed;
  error_message = some error;
  entity = update now d.entity;
}

abbrev pub processable : DocumentStatus → Bool
processable DocumentStatus.pending = true
processable DocumentStatus.failed = true
processable _ = false

unfoldable pub is_processable : Document → Bool
is_processable d = processable d.status
