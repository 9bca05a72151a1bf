-- ===== src/Repository/MemoryChunk/Batch.antt =====
-- Batches of chunks.
use ai_backend_api.Base.{
  suc, Bool, true, false, none, some, List, [], ◌∷◌, filter_by, count_by, length, if◌then◌else◌,
  ◌≡◌, refl, sym, ap, ◌∙◌, arith, Bool-cases, some_inj, inl, inr, All,
}
use ai_backend_api.Base.Text.{Text, text_eq, text_eq_iff}
use ai_backend_api.Base.Dict.{get, put, remove, values, get-put, get-remove}
use ai_backend_api.Base.Sort.{IsSorted, sort_by-IsSorted, sort_by-Perm}
use ai_backend_api.Entity.Values.{DocumentId, ChunkId}
use ai_backend_api.Entity.Chunk.{Chunk}
use ai_backend_api.Repository.MemoryChunk.{
  Store, get_by_id, get_by_document, in_document, earlier, save_many, put_all, keys_of, remove_all,
  delete_by_document, count_by_document,
}
use mathlib.Core.List.{Perm}

earlier-total : (a b : Chunk) → earlier a b ≡ false → earlier b a ≡ true
earlier-total a b h = ground arith

earlier_trans : (a b c : Chunk) → earlier a b ≡ true → earlier b c ≡ true → earlier a c ≡ true
earlier_trans a b c h k = ground arith

member : Text → List Text → Bool
member k [] = false
member k (j ∷ js) = let rest = member k js in if text_eq j k then true else rest

-- The chunks of a document come in the order of their indices, each as often as in the store.
pub get_by_document-IsSorted :
    (document_id : DocumentId) (store : Store)
    → IsSorted earlier (get_by_document document_id store)
      × Perm
          (get_by_document document_id store)
          (filter_by (in_document document_id) (values store))
unfolding get_by_document
get_by_document-IsSorted document_id store =
    let matching = filter_by (in_document document_id) (values store) in
    (sort_by-IsSorted earlier earlier-total earlier_trans matching, sort_by-Perm earlier matching)

-- No chunk of the batch has this identifier.
abbrev pub Avoids : Text → List Chunk → Type 0
Avoids k [] = Unit
Avoids k (c ∷ cs) = (text_eq c.chunk_id.value k ≡ false) × Avoids k cs

get-put_all :
    (k : Text) (cs : List Chunk) (store : Store)
    → Avoids k cs
    → get (put_all cs store) k ≡ get store k
get-put_all k [] store h = refl
get-put_all k (c ∷ cs) store (h, hs) =
    get-put_all k cs (put store c.chunk_id.value c) hs
    ∙ (get-put store c.chunk_id.value c k ∙ rw h refl)

-- The identifiers of the batch are different.
abbrev pub IsDistinct : List Chunk → Type 0
IsDistinct [] = Unit
IsDistinct (c ∷ cs) = Avoids c.chunk_id.value cs × IsDistinct cs

abbrev pub AllStored : List Chunk → Store → Type 0
AllStored cs store = All (λ c. get store c.chunk_id.value ≡ some c) cs

put_all-AllStored :
    (cs : List Chunk) (store : Store) → IsDistinct cs → AllStored cs (put_all cs store)
put_all-AllStored [] store h = tt
put_all-AllStored (c ∷ cs) store (h, hs) = (
  get-put_all c.chunk_id.value cs (put store c.chunk_id.value c) h
      ∙ (get-put store c.chunk_id.value c c.chunk_id.value
          ∙ rw ((text_eq_iff c.chunk_id.value c.chunk_id.value).1 refl) refl),
  put_all-AllStored cs (put store c.chunk_id.value c) hs,
)

-- If the identifiers of a batch are different, every chunk of it is found under its identifier after
-- `save_many`, and an identifier that the batch does not have is as before.
pub save_many-AllStored :
    (chunks : List Chunk) (store : Store)
    → IsDistinct chunks
    → AllStored chunks (save_many chunks store).1
      × ((i : ChunkId)
          → Avoids i.value chunks
          → get_by_id i (save_many chunks store).1 ≡ get_by_id i store)
unfolding save_many get_by_id
save_many-AllStored chunks store h =
    (put_all-AllStored chunks store h, λ i a. get-put_all i.value chunks store a)

-- What is left under a key after a removal of several.
get-remove_all :
    (k : Text) (ks : List Text) (store : Store)
    → get (remove_all ks store) k ≡ (if member k ks then none else get store k)
unfolding member
get-remove_all k [] store = refl
get-remove_all k (j ∷ ks) store =
    get-remove_all k ks (remove store j)
    ∙ (ap (λ o. if member k ks then none else o) (get-remove store j k) ∙ ground arith)

get-member :
    (d : DocumentId) (k : Text) (c : Chunk) (store : Store)
    → get store k ≡ some c
    → in_document d c ≡ true
    → member k (keys_of d store) ≡ true
unfolding member keys_of get filter_by
get-member d k c [] h e = absurd (cc)
get-member d k c ((j, x) ∷ store) h e = elim (Bool-cases (text_eq j k)) [
  | inl same ↦
      let found : some x ≡ some c = rw same at h in
      let inside : in_document d x ≡ true = ap (in_document d) (some_inj found) ∙ e in
      rw inside (rw same refl)
  | inr other ↦
      let rest : get store k ≡ some c = rw other at h in
      elim (Bool-cases (in_document d x)) [
        | inl inside ↦ rw inside (rw other (get-member d k c store rest e))
        | inr outside ↦ rw outside (get-member d k c store rest e)
      ]
]

count-keys_of :
    (d : DocumentId) (store : Store)
    → length (keys_of d store) ≡ count_by (in_document d) (values store)
unfolding keys_of values count_by filter_by
count-keys_of d [] = refl
count-keys_of d ((j, x) ∷ store) = elim (Bool-cases (in_document d x)) [
  | inl inside ↦ rw inside (ap (λ n. suc n) (count-keys_of d store))
  | inr outside ↦ rw outside (count-keys_of d store)
]

-- `delete_by_document` answers the number that `count_by_document` has before it, and what is found
-- under an identifier afterwards was found there before, and is a chunk of another document.
pub delete_by_document-count :
    (d : DocumentId) (store : Store)
    → ((delete_by_document d store).0 ≡ count_by_document d store)
      × ((i : ChunkId) (c : Chunk)
          → get_by_id i (delete_by_document d store).1 ≡ some c
          → (get_by_id i store ≡ some c) × (in_document d c ≡ false))
unfolding delete_by_document count_by_document get_by_id
delete_by_document-count d store = (
  count-keys_of d store,
  λ i c h. elim (Bool-cases (member i.value (keys_of d store))) [
    | inl gone ↦
        let e = get-remove_all i.value (keys_of d store) store in
        let none_left : none ≡ some c = sym (e ∙ rw gone refl) ∙ h in absurd (cc)
    | inr stays ↦
        let e = get-remove_all i.value (keys_of d store) store in
        let found : get store i.value ≡ some c = sym (e ∙ rw stays refl) ∙ h in
        (
          found,
          elim (Bool-cases (in_document d c)) [
            | inl inside ↦ absurd (let m = get-member d i.value c store found inside in cc)
            | inr outside ↦ outside
          ],
        )
  ],
)
