-- ===== src/Entity/Counters.antt =====
-- app/domain/entities/collection.py and user.py: counters of documents, tokens and requests.
use ai_backend_api.Base.{ℕ, ◌+◌, ◌-◌, max, Option}
use ai_backend_api.Base.Text.{Text}
use ai_backend_api.Base.Dict.{Dict}
use ai_backend_api.Entity.Values.{CollectionId, UserId, Value}
use ai_backend_api.Entity.Identity.{Entity, update}

pub record Collection : Type 0 where
  pub entity : Entity
  pub collection_id : CollectionId
  pub name : Text
  pub description : Text
  pub document_count : ℕ
  pub metadata : Dict Value

unfoldable pub increment_document_count : ℕ → Collection → Collection
unfolding update
increment_document_count now c = record c {
  document_count = c.document_count + 1;
  entity = update now c.entity;
}

-- `max(0, n - 1)`, where the subtraction of natural numbers stops at 0 as `max` makes it do.
unfoldable pub decrement_document_count : ℕ → Collection → Collection
unfolding update
decrement_document_count now c = record c {
  document_count = max 0 (c.document_count - 1);
  entity = update now c.entity;
}

pub record User : Type 0 where
  pub entity : Entity
  pub user_id : UserId
  pub name : Text
  pub email : Option Text
  pub total_tokens_used : ℕ
  pub total_requests : ℕ
  pub metadata : Dict Value

unfoldable pub track_usage : ℕ → ℕ → User → User
unfolding update
track_usage now tokens u = record u {
  total_tokens_used = u.total_tokens_used + tokens;
  total_requests = u.total_requests + 1;
  entity = update now u.entity;
}
