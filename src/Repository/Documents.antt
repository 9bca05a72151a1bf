-- ===== src/Repository/Documents.antt =====
-- app/infrastructure/repositories/postgres_document_repo.py over
-- app/infrastructure/db/postgres_pool.py. The SQL statements are operations on the rows of
-- `documents`; SHA-256 and `json` are parameters. The tenant of a row exists, and of rows with one
-- time of creation PostgreSQL may give either first: here it is the one saved first.
pub mod Rows
pub mod Scope
pub mod Dedup
use ai_backend_api.Base.{
  ℕ, zero, suc, ◌+◌, Bool, true, false, ◌&&◌, Option, none, some, List, [], ◌∷◌, ◌++◌, take, drop,
  filter_by, count_by, if◌then◌else◌, leb,
}
use ai_backend_api.Base.Text.{Text, codes, text_eq}
use ai_backend_api.Base.Dict.{Dict}
use ai_backend_api.Base.Result.{Result, ok, err, ◌>>=◌}
use ai_backend_api.Base.Sort.{sort_by}
use ai_backend_api.Entity.Values.{Uuid, DocumentId, CollectionId, TenantId, PaginationParams, Value}
use ai_backend_api.Entity.Document.{Document, DocumentStatus}
use ai_backend_api.Errors.{Exc}
use ai_backend_api.Exec.{Exec, raise, lift, pure, continue}

-- `hexdigest` of SHA-256, `json.dumps`, and `json.loads`, which may raise.
pub record DocumentLibrary : Type 0 where
  pub sha256_hex : Text → Text
  pub dumps : Dict Value → Text
  pub loads : Text → Result Exc (Dict Value)

pub record Row : Type 0 where
  pub document_id : Uuid
  pub tenant_id : Uuid
  pub collection_id : Uuid
  pub title : Text
  pub content : Text
  pub content_type : Text
  pub content_hash : Text
  pub status : Text
  pub chunk_count : ℕ
  pub token_count : ℕ
  pub error_message : Option Text
  pub metadata : Text
  pub created_at : ℕ
  pub updated_at : ℕ

-- `PostgresPool`: whether `_pool` is there, and the table behind it.
pub record Database : Type 0 where
  pub is_connected : Bool
  pub rows : List Row

unfoldable pub connect : Exec Database (Unit {0})
connect db = (ok tt, record db { is_connected = true })

unfoldable pub close : Exec Database (Unit {0})
close db = (ok tt, record db { is_connected = false })

-- A statement goes through the property `pool`.
abbrev pub in_pool : {A : Type 0} → Bool → Exec Database A → Exec Database A
in_pool true statement = statement
in_pool false statement =
    raise (Exc.runtime_error (codes "PostgresPool not connected. Call connect() first."))

-- `status.value`, and `DocumentStatus(…)` of a text.
unfoldable pub status_value : DocumentStatus → Text
status_value DocumentStatus.pending = codes "pending"
status_value DocumentStatus.processing = codes "processing"
status_value DocumentStatus.completed = codes "completed"
status_value DocumentStatus.failed = codes "failed"

unfoldable pub document_status : Text → Result Exc DocumentStatus
document_status s =
    if text_eq s (codes "pending")
    then ok DocumentStatus.pending
    else if text_eq s (codes "processing")
    then ok DocumentStatus.processing
    else if text_eq s (codes "completed")
    then ok DocumentStatus.completed
    else if text_eq s (codes "failed")
    then ok DocumentStatus.failed
    else err (Exc.value_error (codes "'" ++ (s ++ codes "' is not a valid DocumentStatus")))

-- The first row, as `fetchrow` and LIMIT 1 give it.
unfoldable pub first_row : (Row → Bool) → List Row → Option Row
first_row p [] = none
first_row p (r ∷ rows) = let rest = first_row p rows in if p r then some r else rest

abbrev pub has_id : Uuid → Row → Bool
has_id id r = text_eq r.document_id id

abbrev pub newer : Row → Row → Bool
newer a b = leb b.created_at a.created_at

abbrev pub is_scoped : Uuid → Uuid → Row → Bool
is_scoped document_id tenant_id r = has_id document_id r && text_eq r.tenant_id tenant_id

abbrev pub in_collection : Uuid → Row → Bool
in_collection collection_id r = text_eq r.collection_id collection_id

abbrev pub is_duplicate : Uuid → Text → Row → Bool
is_duplicate tenant_id hash r = text_eq r.tenant_id tenant_id && text_eq r.content_hash hash

abbrev pub inserted : Option Row → Row → List Row → List Row
inserted none row rows = rows ++ (row ∷ [])
inserted (some old) row rows = rows

module _ (library : DocumentLibrary) where
  -- `_content_hash`
  unfoldable pub content_hash : Text → Text
  content_hash content = library.sha256_hex content

  -- An empty text would be no metadata.
  abbrev metadata_of : Text → Result Exc (Dict Value)
  metadata_of [] = ok []
  metadata_of (c ∷ s) = library.loads (c ∷ s)

  -- `_row_to_document`; it passes no `id`, so the entity draws a new one.
  unfoldable pub row_to_document : Uuid → Row → Result Exc Document
  unfolding document_status
  row_to_document fresh row = document_status row.status >>= λ status.
      metadata_of row.metadata >>= λ metadata. ok (record {
        entity = record { id = fresh; created_at = row.created_at; updated_at = row.updated_at };
        tenant_id = record { value = row.tenant_id };
        document_id = record { value = row.document_id };
        collection_id = record { value = row.collection_id };
        title = row.title;
        content = row.content;
        content_type = row.content_type;
        metadata = metadata;
        status = status;
        chunk_count = row.chunk_count;
        token_count = row.token_count;
        error_message = row.error_message;
      })

  abbrev pub document_of : Uuid → Option Row → Result Exc (Option Document)
  unfolding row_to_document
  document_of fresh none = ok none
  document_of fresh (some row) = row_to_document fresh row >>= λ d. ok (some d)

  unfoldable pub get_by_id : Uuid → DocumentId → Exec Database (Option Document)
  unfolding first_row row_to_document
  get_by_id fresh document_id db =
      in_pool db.is_connected
        (lift (document_of fresh (first_row (has_id document_id.value) db.rows))) db

  unfoldable pub get_by_id_for_tenant :
      Uuid → DocumentId → TenantId → Exec Database (Option Document)
  unfolding first_row row_to_document
  get_by_id_for_tenant fresh document_id tenant_id db =
      in_pool db.is_connected
        (lift (document_of fresh (first_row (is_scoped document_id.value tenant_id.value) db.rows)))
        db

  -- The rows in turn, the i-th with the i-th new identifier.
  unfoldable pub documents_from : (ℕ → Uuid) → ℕ → List Row → Result Exc (List Document)
  unfolding row_to_document
  documents_from fresh i [] = ok []
  documents_from fresh i (row ∷ rows) =
      let rest = documents_from fresh (suc i) rows in
      row_to_document (fresh i) row >>= λ d. rest >>= λ ds. ok (d ∷ ds)

  unfoldable pub get_by_collection :
      (ℕ → Uuid) → CollectionId → PaginationParams → Exec Database (List Document)
  unfolding documents_from
  get_by_collection fresh collection_id pagination db =
      let matching = sort_by newer (filter_by (in_collection collection_id.value) db.rows) in
      in_pool db.is_connected
        (lift (documents_from fresh 0 (take pagination.limit (drop pagination.offset matching)))) db

  unfoldable pub find_duplicate : Uuid → TenantId → Text → Exec Database (Option Document)
  unfolding content_hash first_row row_to_document
  find_duplicate fresh tenant_id content db =
      in_pool db.is_connected
        (lift (
          document_of fresh
            (first_row (is_duplicate tenant_id.value (content_hash content)) db.rows)))
        db

  -- The values of the INSERT.
  unfoldable pub row_of : Document → Row
  unfolding content_hash status_value
  row_of d = record {
    document_id = d.document_id.value;
    tenant_id = d.tenant_id.value;
    collection_id = d.collection_id.value;
    title = d.title;
    content = d.content;
    content_type = d.content_type;
    content_hash = content_hash d.content;
    status = status_value d.status;
    chunk_count = d.chunk_count;
    token_count = d.token_count;
    error_message = d.error_message;
    metadata = library.dumps d.metadata;
    created_at = d.entity.created_at;
    updated_at = d.entity.updated_at;
  }

  -- INSERT … ON CONFLICT (document_id) DO NOTHING
  unfoldable pub save : Document → Exec Database Document
  unfolding row_of first_row
  save document db =
      in_pool db.is_connected
        (λ s. (
          ok document,
          record s {
            rows =
                inserted (first_row (has_id document.document_id.value) s.rows) (row_of document)
                  s.rows;
          },
        ))
        db

  -- The columns that UPDATE sets; NOW() is the database's clock.
  abbrev pub updated_row : ℕ → Document → Row → Row
  unfolding status_value
  updated_row now d row = record row {
    status = status_value d.status;
    chunk_count = d.chunk_count;
    token_count = d.token_count;
    error_message = d.error_message;
    metadata = library.dumps d.metadata;
    updated_at = now;
  }

  unfoldable pub update_rows : ℕ → Document → List Row → List Row
  unfolding status_value
  update_rows now d [] = []
  update_rows now d (row ∷ rows) =
      (if has_id d.document_id.value row then updated_row now d row else row)
      ∷ update_rows now d rows

  unfoldable pub update : ℕ → Document → Exec Database Document
  unfolding update_rows
  update now document db =
      in_pool db.is_connected
        (λ s. (ok document, record s { rows = update_rows now document s.rows })) db

unfoldable pub delete_rows : Uuid → List Row → List Row
delete_rows id [] = []
delete_rows id (row ∷ rows) =
    let rest = delete_rows id rows in if has_id id row then rest else row ∷ rest

abbrev pub is_deleted : Option Row → Bool
is_deleted none = false
is_deleted (some row) = true

-- DELETE; identifiers are unique, so "DELETE 1" says that there was a row.
unfoldable pub delete : DocumentId → Exec Database Bool
unfolding delete_rows first_row
delete document_id db =
    in_pool db.is_connected
      (λ s. (
        ok (is_deleted (first_row (has_id document_id.value) s.rows)),
        record s { rows = delete_rows document_id.value s.rows },
      ))
      db

unfoldable pub count_by_collection : CollectionId → Exec Database ℕ
count_by_collection collection_id db =
    in_pool db.is_connected (pure (count_by (in_collection collection_id.value) db.rows)) db
