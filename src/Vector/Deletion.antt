-- ===== src/Vector/Deletion.antt =====
-- delete and delete_by_document of app/infrastructure/vector_db/qdrant_adapter.py.
use ai_backend_api.Base.{
  ℕ, ◌&&◌, not, Bool, true, false, ◌≡◌, ◌≢◌, refl, sym, ap, ◌∙◌, Option, none, some, List, [], ◌∷◌,
  All, arith, subst,
}
use ai_backend_api.Base.Text.{Text, codes, text_eq, text_eq_iff}
use ai_backend_api.Base.Dict.{Dict, get, is_some}
use ai_backend_api.Base.Result.{Result, ok, err, ok_inj}
use ai_backend_api.Entity.Chat.{SearchResult}
use ai_backend_api.Entity.Values.{
  ChunkId, DocumentId, TenantId, EmbeddingVector, Value, str, value_eq, Uuid,
}
use ai_backend_api.Errors.{Exc}
use ai_backend_api.Base.Sort.{All-mono}
use ai_backend_api.Exec.{Exec, pure, continue, ◌>>=◌, ◌>>◌}
use ai_backend_api.Vector.{
  Qdrant, Condition, ScoredPoint, meets_all, meets, payload_of, search_vectors, parse_point,
  parse_points, metadata_of, query_filter, filter_conditions,
}
use ai_backend_api.Vector.Isolation.{
  AllSome-mono, All-cons_some, parse_point-metadata, get-filter_by, continue-ok,
}

-- The two ways to delete points.
pub record Deletions (q : Qdrant) : Type 0 where
  -- By their ids; None is an answer without a result.
  pub delete_points : List Text → Exec q.State (Option (Unit {0}))
  -- By a filter.
  pub delete_matching : List Condition → Exec q.State (Unit {0})

-- What Qdrant documents of the points that it stores: answers are stored points, and a deletion by a
-- filter leaves no point that meets every condition.
pub record IsDeleting (q : Qdrant) (d : Deletions q) : Type 1 where
  pub Stores : q.State → Dict Value → Type 0
  pub stores-query_points :
      (vector : List ℕ) (limit : ℕ) (must : Option (List Condition)) (s : q.State)
      (points : List ScoredPoint)
      → (q.query_points vector limit must s).0 ≡ ok points
      → All (λ p. Stores s (payload_of p)) points
  pub stores-delete_matching :
      (must : List Condition) (s : q.State) (payload : Dict Value)
      → (d.delete_matching must s).0 ≡ ok tt
      → Stores (d.delete_matching must s).1 payload
      → Stores s payload × (meets_all payload must ≡ false)

module _ (q : Qdrant) (d : Deletions q) where
  -- `delete`
  unfoldable pub delete : ChunkId → Exec q.State Bool
  delete chunk_id = do result ← d.delete_points (chunk_id.value ∷ []); pure (is_some result)

  -- `delete_by_document`
  unfoldable pub delete_by_document : DocumentId → Exec q.State ℕ
  delete_by_document document_id =
      d.delete_matching ((codes "document_id", str document_id.value) ∷ []) >> pure 0

-- A result that names another document, or none, in its metadata.
abbrev pub IsOther : DocumentId → SearchResult → Type 0
IsOther document_id r = get r.metadata (codes "document_id") ≢ some (str document_id.value)

unmet-get :
    (payload : Dict Value) (t : Text)
    → meets_all payload ((codes "document_id", str t) ∷ []) ≡ false
    → get payload (codes "document_id") ≢ some (str t)
unfolding meets_all meets
unmet-get payload t h found =
    let met : (value_eq (str t) (str t) && true) ≡ false =
      ap (λ o. elim o [ none ↦ false | some w ↦ value_eq w (str t) ] && true) (sym found) ∙ h in
    ground (arith, text_eq_iff t t, met)

get-metadata_of :
    (d : Dict Value) → get (metadata_of d) (codes "document_id") ≡ get d (codes "document_id")
unfolding metadata_of
get-metadata_of d =
    get-filter_by
      (λ k.
        not (text_eq k (codes "content"))
        && (not (text_eq k (codes "document_title")) && not (text_eq k (codes "chunk_index"))))
      (codes "document_id") d refl

continue-zero :
    {S : Type 0} (r : Result Exc (Unit {0})) (s s1 : S) (n : ℕ)
    → continue r (λ _ s'. (ok 0, s')) s ≡ (ok n, s1)
    → (r ≡ ok tt) × (n ≡ 0) × (s ≡ s1)
continue-zero (ok a) s s1 n h = (refl, ok_inj (ap (λ p. p.0) h) refl, ap (λ p. p.1) h)
continue-zero (err e) s s1 n h = absurd (let no = ap (λ p. p.0) h in cc)

parse_points-IsOther :
    (q : Qdrant) (fresh : Uuid) (document_id : DocumentId) (points : List ScoredPoint)
    → All (λ p. get (payload_of p) (codes "document_id") ≢ some (str document_id.value)) points
    → All (IsOther document_id) (parse_points q fresh points)
unfolding parse_points
parse_points-IsOther q fresh document_id [] h = tt
parse_points-IsOther q fresh document_id (p ∷ ps) (h, hs) =
    All-cons_some (IsOther document_id) (parse_point q fresh p) (parse_points q fresh ps)
      (AllSome-mono (λ r. r.metadata ≡ metadata_of (payload_of p)) (IsOther document_id)
        (parse_point q fresh p)
        (λ r m found. h (
          sym (get-metadata_of (payload_of p))
          ∙ (ap (λ l. get l (codes "document_id")) (sym m) ∙ found)))
        (parse_point-metadata q fresh p))
      (parse_points-IsOther q fresh document_id ps hs)

-- Once the vectors of a document are deleted, no search finds one of them, whatever its query, its
-- filters and its tenant are: every result names another document. What the deletion returns is 0,
-- however many there were.
pub search_vectors-delete_by_document :
    (q : Qdrant) (d : Deletions q) (deleting : IsDeleting q d) (document_id : DocumentId)
    (s s1 : q.State) (count : ℕ) (fresh : Uuid) (embedding : EmbeddingVector) (top_k : ℕ)
    (filters : Dict Value) (tenant_id : Option TenantId) (results : List SearchResult)
    → delete_by_document q d document_id s ≡ (ok count, s1)
    → (search_vectors q fresh embedding top_k filters tenant_id s1).0 ≡ ok results
    → (count ≡ 0) × All (IsOther document_id) results
unfolding delete_by_document search_vectors ◌>>=◌
search_vectors-delete_by_document q d deleting document_id s s1 count fresh embedding top_k filters
      tenant_id results deleted h =
    let must = (codes "document_id", str document_id.value) ∷ [] in
    let (returned, zero, same) =
      continue-zero (d.delete_matching must s).0 (d.delete_matching must s).1 s1 count deleted in
    let others : (payload : Dict Value)
        → deleting.Stores s1 payload
        → get payload (codes "document_id") ≢ some (str document_id.value) =
      subst
        (λ z.
          (payload : Dict Value)
          → deleting.Stores z payload
          → get payload (codes "document_id") ≢ some (str document_id.value))
        same
        (λ payload stored.
          unmet-get payload document_id.value
            (deleting.stores-delete_matching must s payload returned stored).1) in
    let answer =
      q.query_points embedding.values top_k (query_filter (filter_conditions tenant_id filters))
        s1 in
    let (points, found, e) = continue-ok answer.0 (parse_points q fresh) answer.1 results h in
    (
      zero,
      subst (All (IsOther document_id)) e (
          parse_points-IsOther q fresh document_id points (
            All-mono _ _ points (λ p stored. others (payload_of p) stored)
              (deleting.stores-query_points embedding.values top_k
                (query_filter (filter_conditions tenant_id filters)) s1 points found))),
    )
