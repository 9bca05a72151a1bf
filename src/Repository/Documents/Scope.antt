-- ===== src/Repository/Documents/Scope.antt =====
-- What a read of the table gives to a tenant.
use ai_backend_api.Base.{
  ◌≡◌, refl, sym, ◌∙◌, ap, subst, Bool, true, false, Option, none, some, List, [], ◌∷◌, arith,
  Bool-cases, inl, inr, some_inj,
}
use ai_backend_api.Base.Text.{Text, text_eq_iff}
use ai_backend_api.Base.Result.{Result, ok, err, >>=-eq-ok}
use ai_backend_api.Entity.Values.{Uuid, DocumentId, TenantId}
use ai_backend_api.Entity.Document.{Document}
use ai_backend_api.Errors.{Exc}
use ai_backend_api.Exec.{lift}
use ai_backend_api.Repository.Documents.{
  DocumentLibrary, Row, Database, in_pool, first_row, is_scoped, is_duplicate, document_status,
  metadata_of, row_to_document, document_of, get_by_id_for_tenant, find_duplicate, content_hash,
}
use ai_backend_api.Repository.Documents.Rows.{first_row-head}

first_row-holds :
    (p : Row → Bool) (rows : List Row) (r : Row) → first_row p rows ≡ some r → p r ≡ true
unfolding first_row
first_row-holds p [] r h = absurd (cc)
first_row-holds p (x ∷ rows) r h = elim (Bool-cases (p x)) [
  | inl e ↦
      let same : x ≡ r = some_inj {x = x} {y = r} (sym (first_row-head p x rows true e) ∙ h) in
      subst (λ y. p y ≡ true) same e
  | inr e ↦ first_row-holds p rows r (sym (first_row-head p x rows false e) ∙ h)
]

module _ (library : DocumentLibrary) (fresh : Uuid) where
  row_to_document-columns :
      (r : Row) (d : Document)
      → row_to_document library fresh r ≡ ok d
      → (d.tenant_id.value ≡ r.tenant_id) × (d.document_id.value ≡ r.document_id)
  unfolding row_to_document
  row_to_document-columns r d h =
      let (status, _, rest) = >>=-eq-ok (document_status r.status) _ h in
      let (metadata, _, e) = >>=-eq-ok (metadata_of library r.metadata) _ rest in
      (
        ap (λ q. elim q [ ok x ↦ x.tenant_id.value | err _ ↦ r.tenant_id ]) (sym e),
        ap (λ q. elim q [ ok x ↦ x.document_id.value | err _ ↦ r.document_id ]) (sym e),
      )

  document_of-row :
      (o : Option Row) (d : Document)
      → document_of library fresh o ≡ ok (some d)
      → (r : Row) × (o ≡ some r)
        × (d.tenant_id.value ≡ r.tenant_id)
        × (d.document_id.value ≡ r.document_id)
  unfolding row_to_document
  document_of-row none d h = absurd (cc)
  document_of-row (some r) d h =
      let (x, read, e) = >>=-eq-ok (row_to_document library fresh r) _ h in
      let same : x ≡ d =
        ap (λ q. elim q [ ok o ↦ elim o [ some y ↦ y | none ↦ x ] | err _ ↦ x ]) e in
      let (tenant, id) = row_to_document-columns r d (read ∙ ap (λ y. ok y) same) in
      (r, refl, tenant, id)

  connected_of :
      {A : Type 0} (b : Bool) (r : Result Exc A) (a : A) (db : Database)
      → (in_pool b (lift r) db).0 ≡ ok a
      → r ≡ ok a
  connected_of true r a db h = h
  connected_of false r a db h = absurd (cc)

  -- What the scoped read returns is the document asked for and belongs to the tenant that asks, and
  -- so does a duplicate that is found, whatever the table holds.
  pub reads-scoped :
      (i : DocumentId) (t : TenantId) (content : Text) (db : Database)
      → ((d : Document)
          → (get_by_id_for_tenant library fresh i t db).0 ≡ ok (some d)
          → (d.document_id.value ≡ i.value) × (d.tenant_id.value ≡ t.value))
        × ((d : Document)
            → (find_duplicate library fresh t content db).0 ≡ ok (some d)
            → d.tenant_id.value ≡ t.value)
  unfolding get_by_id_for_tenant find_duplicate
  reads-scoped i t content db = (
    λ d h.
        let o = first_row (is_scoped i.value t.value) db.rows in
        let (r, e, tenant, id) =
          document_of-row o d
            (connected_of db.is_connected (document_of library fresh o) (some d) db h) in
        let holds : is_scoped i.value t.value r ≡ true =
          first_row-holds (is_scoped i.value t.value) db.rows r e in
        (
          id ∙ (text_eq_iff r.document_id i.value).0 (ground arith),
          tenant ∙ (text_eq_iff r.tenant_id t.value).0 (ground arith),
        ),
    λ d h.
        let p : Row → Bool = is_duplicate t.value (content_hash library content) in
        let o = first_row p db.rows in
        let (r, e, tenant, id) =
          document_of-row o d
            (connected_of db.is_connected (document_of library fresh o) (some d) db h) in
        let holds : p r ≡ true = first_row-holds p db.rows r e in
        tenant ∙ (text_eq_iff r.tenant_id t.value).0 (ground arith),
  )
