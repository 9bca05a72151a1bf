-- ===== src/Entity/Chunk.antt =====
-- app/domain/entities/chunk.py
use ai_backend_api.Base.{ℕ, Bool, true, false, Option, none, some, []}
use ai_backend_api.Base.Text.{Text}
use ai_backend_api.Base.Int.{ℤ}
use ai_backend_api.Base.Dict.{Dict}
use ai_backend_api.Base.Result.{Result, ok, err}
use ai_backend_api.Errors.{Exc}
use ai_backend_api.Entity.Values.{
  ChunkId, DocumentId, CollectionId, TenantId, EmbeddingVector, Value,
}
use ai_backend_api.Entity.Identity.{Entity, update}

pub record Chunk : Type 0 where
  pub entity : Entity
  pub tenant_id : TenantId
  pub chunk_id : ChunkId
  pub document_id : DocumentId
  pub collection_id : CollectionId
  pub content : Text
  pub chunk_index : ℕ
  pub start_char : ℤ
  pub end_char : ℤ
  pub token_count : ℕ
  pub embedding : Option EmbeddingVector
  pub metadata : Dict Value

-- The constructor: `tenant_id` is a required field, and pydantic refuses a call that leaves it out,
-- by an error of the given text.
unfoldable pub chunk_new :
    (refusal : Text)
    → Option TenantId
    → Entity
    → ChunkId
    → DocumentId
    → CollectionId
    → Text
    → (chunk_index : ℕ) (start_char end_char : ℤ) (token_count : ℕ) → Result Exc Chunk
chunk_new refusal none entity chunk_id document_id collection_id content index start end tokens =
    err (Exc.validation_error refusal)
chunk_new refusal (some tenant_id) entity chunk_id document_id collection_id content index start end
      tokens =
    ok (record {
      entity = entity;
      tenant_id = tenant_id;
      chunk_id = chunk_id;
      document_id = document_id;
      collection_id = collection_id;
      content = content;
      chunk_index = index;
      start_char = start;
      end_char = end;
      token_count = tokens;
      embedding = none;
      metadata = [];
    })

unfoldable pub set_embedding : ℕ → EmbeddingVector → Chunk → Chunk
unfolding update
set_embedding now e c = record c { embedding = some e; entity = update now c.entity }

unfoldable pub has_embedding : Chunk → Bool
has_embedding c = elim c.embedding [ none ↦ false | some e ↦ true ]
