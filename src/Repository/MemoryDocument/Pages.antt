-- ===== src/Repository/MemoryDocument/Pages.antt =====
-- The store as a map, and the pages of a collection.
use ai_backend_api.Base.{
  ◌-◌, min, true, false, none, some, List, filter_by, take, drop, length, if◌then◌else◌, ◌≡◌, refl,
  arith, Option-cases, inl, inr, length-take, length-drop, count_by-eq-length-filter_by,
}
use ai_backend_api.Base.Text.{text_eq, text_eq_iff}
use ai_backend_api.Base.Dict.{get, values, is_some, get-put, get-remove}
use ai_backend_api.Base.Sort.{sort_by, IsSorted, sort_by-IsSorted, sort_by-Perm, length-sort_by}
use ai_backend_api.Entity.Values.{DocumentId, CollectionId, PaginationParams}
use ai_backend_api.Entity.Document.{Document}
use ai_backend_api.Repository.MemoryDocument.{
  Store, get_by_id, get_by_collection, in_collection, newer, save, update, delete,
  count_by_collection,
}
use mathlib.Core.List.{Perm}

delete-get :
    (store : Store) (j i : DocumentId)
    → get_by_id i (delete j store).1 ≡ (if text_eq j.value i.value then none else get_by_id i store)
unfolding get_by_id delete
delete-get store j i = elim (Option-cases (get store j.value)) [
  | inl missing ↦ rw missing (ground (arith, text_eq_iff j.value i.value, missing))
  | inr (d, found) ↦ rw found (get-remove store j.value i.value)
]

delete-answer : (store : Store) (j : DocumentId) → (delete j store).0 ≡ is_some (get_by_id j store)
unfolding get_by_id delete
delete-answer store j = elim (Option-cases (get store j.value)) [
  | inl missing ↦ rw missing refl
  | inr (d, found) ↦ rw found refl
]

-- Saving or updating a document is a write to a map: it is found under its own identifier
-- afterwards, and every other identifier is as before. Deleting empties an identifier alone, and
-- answers whether there was a document.
pub get_by_id-after :
    (store : Store) (d : Document) (j i : DocumentId)
    → (get_by_id i (save d store).1
        ≡ (if text_eq d.document_id.value i.value then some d else get_by_id i store))
      × (get_by_id i (update d store).1
          ≡ (if text_eq d.document_id.value i.value then some d else get_by_id i store))
      × (get_by_id i (delete j store).1
          ≡ (if text_eq j.value i.value then none else get_by_id i store))
      × ((delete j store).0 ≡ is_some (get_by_id j store))
unfolding get_by_id save update delete
get_by_id-after store d j i = (
  get-put store d.document_id.value d i.value,
  get-put store d.document_id.value d i.value,
  delete-get store j i,
  delete-answer store j,
)

newer-total : (a b : Document) → newer a b ≡ false → newer b a ≡ true
newer-total a b h = ground arith

newer_trans : (a b c : Document) → newer a b ≡ true → newer b c ≡ true → newer a c ≡ true
newer_trans a b c h k = ground arith

-- A page is what `offset` and `limit` cut out of one order of the collection's documents,
-- the newest first: this order has each document of the collection as often as the store, and
-- it does not depend on the page. A page has as many documents as the count and the
-- pagination say.
pub get_by_collection-page :
    (c : CollectionId) (store : Store)
    → (whole : List Document) × IsSorted newer whole
      × Perm whole (filter_by (in_collection c) (values store))
      × ((p : PaginationParams)
          → (get_by_collection c p store ≡ take p.limit (drop p.offset whole))
            × (length (get_by_collection c p store)
                ≡ min p.limit (count_by_collection c store - p.offset)))
unfolding get_by_collection count_by_collection
get_by_collection-page c store =
    let matching = filter_by (in_collection c) (values store) in
    let whole = sort_by newer matching in
    (
      whole,
      sort_by-IsSorted newer newer-total newer_trans matching,
      sort_by-Perm newer matching,
      λ p. (
        refl,
        omega (
          arith,
          length-take p.limit (drop p.offset whole),
          length-drop p.offset whole,
          length-sort_by newer matching,
          count_by-eq-length-filter_by (in_collection c) (values store),
        ),
      ),
    )
