-- ===== src/Repository/Documents/Rows.antt =====
-- Documents that are written to the table and read back.
use ai_backend_api.Base.{
  ◌≡◌, refl, ◌∙◌, ap, Bool, true, false, Option, none, some, List, [], ◌∷◌, ◌++◌, if◌then◌else◌,
  Bool-cases, inl, inr,
}
use ai_backend_api.Base.Text.{Text, text_eq, text_eq_iff, is_nonempty}
use ai_backend_api.Base.Dict.{Dict}
use ai_backend_api.Base.Result.{Result, ok, ◌>>=◌}
use ai_backend_api.Entity.Values.{Uuid, DocumentId, Value}
use ai_backend_api.Entity.Document.{Document, DocumentStatus}
use ai_backend_api.Errors.{Exc}
use ai_backend_api.Repository.Documents.{
  DocumentLibrary, Row, Database, status_value, document_status, first_row, has_id, row_to_document,
  metadata_of, document_of, get_by_id, row_of, inserted, save,
}

-- What is relied on: `json.loads` reads what `json.dumps` writes, which is never the empty text.
abbrev pub IsDocumentCodec : DocumentLibrary → Type 0
IsDocumentCodec library =
    (m : Dict Value)
    → (library.loads (library.dumps m) ≡ ok m) × (is_nonempty (library.dumps m) ≡ true)

-- The document as it is read: its entity has a new identifier.
abbrev pub with_id : Uuid → Document → Document
with_id fresh d = record d { entity = record d.entity { id = fresh } }

abbrev pub connected : List Row → Database
connected rows = record { is_connected = true; rows = rows }

status-again : (s : DocumentStatus) → document_status (status_value s) ≡ ok s
unfolding document_status status_value
status-again DocumentStatus.pending = refl
status-again DocumentStatus.processing = refl
status-again DocumentStatus.completed = refl
status-again DocumentStatus.failed = refl

pub first_row-head :
    (p : Row → Bool) (r : Row) (rows : List Row) (b : Bool)
    → p r ≡ b
    → first_row p (r ∷ rows) ≡ (if b then some r else first_row p rows)
unfolding first_row
first_row-head p r rows b e = rw e refl

pub first_row-append :
    (p : Row → Bool) (rows : List Row) (r : Row)
    → first_row p (rows ++ (r ∷ []))
      ≡ elim (first_row p rows) [ none ↦ if p r then some r else none | some old ↦ some old ]
unfolding first_row
first_row-append p [] r = refl
first_row-append p (x ∷ rows) r = elim (Bool-cases (p x)) [
  | inl e ↦ rw e refl
  | inr e ↦ rw e (first_row-append p rows r)
]

module _ (library : DocumentLibrary) (codec : IsDocumentCodec library) where
  metadata-again :
      (s : Text) (m : Dict Value)
      → library.loads s ≡ ok m
      → is_nonempty s ≡ true
      → metadata_of library s ≡ ok m
  metadata-again [] m h n = absurd (cc)
  metadata-again (c ∷ s) m h n = h

  pub row_to_document-row_of :
      (fresh : Uuid) (d : Document)
      → row_to_document library fresh (row_of library d) ≡ ok (with_id fresh d)
  unfolding row_to_document row_of
  row_to_document-row_of fresh d =
      rw
        (
          status-again d.status,
          metadata-again (library.dumps d.metadata) d.metadata (codec d.metadata).0
              (codec d.metadata).1,
        )
        refl

  inserted_case :
      (fresh : Uuid) (d : Document) (o : Option Row) (b : Bool)
      → document_of library fresh
          (elim o [ none ↦ if b then some (row_of library d) else none | some old ↦ some old ])
        ≡ elim o [
          | none ↦ if b then ok (some (with_id fresh d)) else ok none
          | some old ↦ document_of library fresh (some old)
        ]
  unfolding document_of
  inserted_case fresh d none true =
      ap (λ r. r >>= λ x. ok (some x)) (row_to_document-row_of fresh d)
  inserted_case fresh d none false = refl
  inserted_case fresh d (some old) b = refl

  pub document_of-inserted :
      (p : Row → Bool) (fresh : Uuid) (d : Document) (rows : List Row) (o : Option Row)
      → o ≡ none
      → document_of library fresh (first_row p (inserted o (row_of library d) rows))
        ≡ elim (first_row p rows) [
          | none ↦ if p (row_of library d) then ok (some (with_id fresh d)) else ok none
          | some old ↦ document_of library fresh (some old)
        ]
  unfolding row_to_document
  document_of-inserted p fresh d rows (some old) h = absurd (cc)
  document_of-inserted p fresh d rows none h =
      rw (first_row-append p rows (row_of library d))
        (inserted_case fresh d (first_row p rows) (p (row_of library d)))

  saved_case :
      (fresh : Uuid) (d : Document) (i : DocumentId) (rows : List Row) (o : Option Row)
      → first_row (has_id d.document_id.value) rows ≡ none
      → first_row (has_id i.value) rows ≡ o
      → elim o as (λ _. Result Exc (Option Document)) [
        | none ↦
            if text_eq d.document_id.value i.value then ok (some (with_id fresh d)) else ok none
        | some old ↦ document_of library fresh (some old)
      ]
        ≡ (if text_eq d.document_id.value i.value
            then ok (some (with_id fresh d))
            else document_of library fresh o)
  unfolding row_to_document
  saved_case fresh d i rows none h e = refl
  saved_case fresh d i rows (some old) h e =
      elim (Bool-cases (text_eq d.document_id.value i.value)) [
        | inl same ↦
            let eq : d.document_id.value ≡ i.value =
              (text_eq_iff d.document_id.value i.value).0 same in
            absurd (cc)
        | inr other ↦ rw other refl
      ]

  -- On a connected pool: a document whose identifier is new is read back as it was saved, except
  -- that its entity has the identifier drawn by the read, and every other identifier is read as
  -- before. Where the identifier is taken, `save` changes nothing, and still answers with the
  -- document that it was given.
  pub get_by_id-save :
      (d : Document) (rows : List Row)
      → let db = connected rows in
        (first_row (has_id d.document_id.value) rows ≡ none
          → (fresh : Uuid) (i : DocumentId)
          → (get_by_id library fresh i (save library d db).1).0 ≡ (
              if text_eq d.document_id.value i.value
              then ok (some (with_id fresh d))
              else (get_by_id library fresh i db).0))
        × ((old : Row)
            → first_row (has_id d.document_id.value) rows ≡ some old
            → save library d db ≡ (ok d, db))
  unfolding get_by_id save
  get_by_id-save d rows = (
    λ missing fresh i.
        document_of-inserted (has_id i.value) fresh d rows
          (first_row (has_id d.document_id.value) rows) missing
        ∙ unfold row_of in saved_case fresh d i rows (first_row (has_id i.value) rows) missing refl,
    λ old e. rw e refl,
  )
