-- ===== src/Repository/Documents/Dedup.antt =====
-- The search for a document with the same content, after writes to the table.
use ai_backend_api.Base.{
  ℕ, ◌≡◌, refl, sym, ◌∙◌, ap, Bool, true, false, Option, none, some, List, [], ◌∷◌, ◌++◌,
  if◌then◌else◌, arith, Bool-cases, inl, inr,
}
use ai_backend_api.Base.Text.{Text, text_eq_iff}
use ai_backend_api.Base.Result.{ok, ◌>>=◌}
use ai_backend_api.Entity.Values.{Uuid}
use ai_backend_api.Entity.Document.{Document}
use ai_backend_api.Repository.Documents.{
  DocumentLibrary, Row, first_row, has_id, is_duplicate, document_of, row_of, inserted, update_rows,
  updated_row, content_hash, status_value,
}
use ai_backend_api.Repository.Documents.Rows.{
  IsDocumentCodec, with_id, first_row-append, first_row-head, row_to_document-row_of,
}

module _ (library : DocumentLibrary) where
  abbrev touched : ℕ → Document → Option Row → Option Row
  unfolding status_value
  touched now d none = none
  touched now d (some r) =
      some (if has_id d.document_id.value r then updated_row library now d r else r)

  is_duplicate-update :
      (tenant_id : Uuid) (hash : Text) (now : ℕ) (d : Document) (r : Row) (b : Bool)
      → is_duplicate tenant_id hash (if b then updated_row library now d r else r)
        ≡ is_duplicate tenant_id hash r
  unfolding status_value updated_row
  is_duplicate-update tenant_id hash now d r true = refl
  is_duplicate-update tenant_id hash now d r false = refl

  -- An update keeps the columns that the search reads.
  first_row-update :
      (tenant_id : Uuid) (hash : Text) (now : ℕ) (d : Document) (rows : List Row)
      → first_row (is_duplicate tenant_id hash) (update_rows library now d rows)
        ≡ touched now d (first_row (is_duplicate tenant_id hash) rows)
  unfolding first_row update_rows
  first_row-update tenant_id hash now d [] = refl
  first_row-update tenant_id hash now d (r ∷ rows) =
      let p : Row → Bool = is_duplicate tenant_id hash in
      let r' : Row = if has_id d.document_id.value r then updated_row library now d r else r in
      let same : p r' ≡ p r =
        is_duplicate-update tenant_id hash now d r (has_id d.document_id.value r) in
      elim (Bool-cases (p r)) [
        | inl e ↦
            first_row-head p r' (update_rows library now d rows) true (same ∙ e)
            ∙ ap (touched now d) (sym (first_row-head p r rows true e))
        | inr e ↦
            first_row-head p r' (update_rows library now d rows) false (same ∙ e)
            ∙ (first_row-update tenant_id hash now d rows
                ∙ ap (touched now d) (sym (first_row-head p r rows false e)))
      ]

  module _ (codec : IsDocumentCodec library) where
    -- After a document without a duplicate is saved and updated, it is its own duplicate.
    pub duplicate-after :
        (fresh : Uuid) (now : ℕ) (d d' : Document) (rows : List Row) (o : Option Row)
        → o ≡ none
        → first_row (is_duplicate d.tenant_id.value (content_hash library d.content)) rows ≡ none
        → d'.document_id.value ≡ d.document_id.value
        → (e : Document) × (document_of library fresh (
              first_row
                (is_duplicate d.tenant_id.value (content_hash library d.content))
                (update_rows library now d' (inserted o (row_of library d) rows)))
            ≡ ok (some e))
          × (e.document_id.value ≡ d.document_id.value)
    unfolding row_of
    duplicate-after fresh now d d' rows (some old) h new same = absurd (cc)
    duplicate-after fresh now d d' rows none h new same =
        let p : Row → Bool = is_duplicate d.tenant_id.value (content_hash library d.content) in
        let row : Row = row_of library d in
        let own : p row ≡ true = ground (
          arith,
          text_eq_iff d.tenant_id.value d.tenant_id.value,
          text_eq_iff (content_hash library d.content) (content_hash library d.content),
        ) in
        let found : first_row p (rows ++ (row ∷ [])) ≡ some row =
          first_row-append p rows row ∙ rw (new, own) refl in
        let is_it : has_id d'.document_id.value row ≡ true =
          (text_eq_iff d.document_id.value d'.document_id.value).1 (sym same) in
        let merged : Document = record d {
          status = d'.status;
          chunk_count = d'.chunk_count;
          token_count = d'.token_count;
          error_message = d'.error_message;
          metadata = d'.metadata;
          entity = record d.entity { updated_at = now };
        } in
        let at_last : first_row p (update_rows library now d' (rows ++ (row ∷ [])))
            ≡ some (row_of library merged) =
          first_row-update d.tenant_id.value (content_hash library d.content) now d'
            (rows ++ (row ∷ []))
          ∙ (ap (touched now d') found
              ∙ unfold touched updated_row in
                ap (λ (b : Bool). some (if b then updated_row library now d' row else row))
                  is_it) in
        (
          with_id fresh merged,
          ap (document_of library fresh) at_last
              ∙ unfold document_of in
                ap (λ r. r >>= λ x. ok (some x))
                  (row_to_document-row_of library codec fresh merged),
          refl,
        )
