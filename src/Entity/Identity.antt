-- ===== src/Entity/Identity.antt =====
-- app/domain/entities/base.py: identity and timestamps. Times are natural numbers (ticks).
use ai_backend_api.Base.{ℕ, Bool}
use ai_backend_api.Base.Text.{text_eq}
use ai_backend_api.Entity.Values.{Uuid}

pub record Entity : Type 0 where
  pub id : Uuid
  pub created_at : ℕ
  pub updated_at : ℕ

-- A new entity: `uuid4()` and two readings of the clock.
unfoldable pub entity_new : Uuid → ℕ → ℕ → Entity
entity_new id created updated = record { id = id; created_at = created; updated_at = updated }

-- `update`: `updated_at` becomes the clock's reading.
unfoldable pub update : ℕ → Entity → Entity
update now e = record e { updated_at = now }

-- `__eq__` between entities.
unfoldable pub entity_eq : Entity → Entity → Bool
entity_eq a b = text_eq a.id b.id
