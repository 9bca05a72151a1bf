-- ===== src/Repository/MemoryChunk.antt =====
-- app/infrastructure/repositories/memory_chunk_repo.py. Its lock makes each method one step.
pub mod Batch
use ai_backend_api.Base.{
  ℕ, Bool, true, false, Option, none, some, List, [], ◌∷◌, filter_by, count_by, leb, length, map,
  if◌then◌else◌,
}
use ai_backend_api.Base.Text.{Text, text_eq}
use ai_backend_api.Base.Dict.{Dict, get, put, remove, values}
use ai_backend_api.Base.Sort.{sort_by}
use ai_backend_api.Entity.Values.{DocumentId, ChunkId}
use ai_backend_api.Entity.Chunk.{Chunk}

-- `self._store`
abbrev pub Store : Type 0
Store = Dict Chunk

unfoldable pub get_by_id : ChunkId → Store → Option Chunk
get_by_id chunk_id store = get store chunk_id.value

abbrev pub in_document : DocumentId → Chunk → Bool
in_document document_id c = text_eq c.document_id.value document_id.value

abbrev pub earlier : Chunk → Chunk → Bool
earlier a b = leb a.chunk_index b.chunk_index

unfoldable pub get_by_document : DocumentId → Store → List Chunk
get_by_document document_id store =
    sort_by earlier (filter_by (in_document document_id) (values store))

abbrev pub put_all : List Chunk → Store → Store
put_all [] store = store
put_all (c ∷ cs) store = put_all cs (put store c.chunk_id.value c)

unfoldable pub save_many : List Chunk → Store → List Chunk × Store
save_many chunks store = (chunks, put_all chunks store)

-- `to_delete`, and the loop over it.
unfoldable pub keys_of : DocumentId → Store → List Text
keys_of document_id store = map (λ e. e.0) (filter_by (λ e. in_document document_id e.1) store)

abbrev pub remove_all : List Text → Store → Store
remove_all [] store = store
remove_all (k ∷ ks) store = remove_all ks (remove store k)

unfoldable pub delete_by_document : DocumentId → Store → ℕ × Store
unfolding keys_of
delete_by_document document_id store =
    let to_delete = keys_of document_id store in (length to_delete, remove_all to_delete store)

unfoldable pub count_by_document : DocumentId → Store → ℕ
count_by_document document_id store = count_by (in_document document_id) (values store)
