-- ===== src/Repository/MemoryDocument.antt =====
-- app/infrastructure/repositories/memory_document_repo.py. Its lock makes each method one step.
pub mod Pages
use ai_backend_api.Base.{
  ℕ, ◌+◌, Bool, true, false, Option, none, some, List, filter_by, count_by, take, drop, leb,
  if◌then◌else◌,
}
use ai_backend_api.Base.Text.{text_eq}
use ai_backend_api.Base.Dict.{Dict, get, put, remove, values, has}
use ai_backend_api.Base.Sort.{sort_by}
use ai_backend_api.Entity.Values.{DocumentId, CollectionId, PaginationParams}
use ai_backend_api.Entity.Document.{Document}

-- `self._store`
abbrev pub Store : Type 0
Store = Dict Document

unfoldable pub get_by_id : DocumentId → Store → Option Document
get_by_id document_id store = get store document_id.value

abbrev pub in_collection : CollectionId → Document → Bool
in_collection collection_id d = text_eq d.collection_id.value collection_id.value

-- `sort(key=created_at, reverse=True)` keeps the order of equal keys.
abbrev pub newer : Document → Document → Bool
newer a b = leb b.entity.created_at a.entity.created_at

unfoldable pub get_by_collection : CollectionId → PaginationParams → Store → List Document
get_by_collection collection_id pagination store =
    let matching = sort_by newer (filter_by (in_collection collection_id) (values store)) in
    take pagination.limit (drop pagination.offset matching)

unfoldable pub save : Document → Store → Document × Store
save document store = (document, put store document.document_id.value document)

unfoldable pub update : Document → Store → Document × Store
update document store = (document, put store document.document_id.value document)

unfoldable pub delete : DocumentId → Store → Bool × Store
delete document_id store =
    if has store document_id.value then (true, remove store document_id.value) else (false, store)

unfoldable pub count_by_collection : CollectionId → Store → ℕ
count_by_collection collection_id store = count_by (in_collection collection_id) (values store)
