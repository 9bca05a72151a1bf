-- ===== src/Vector/Isolation.antt =====
-- What a tenant's search can return.
use ai_backend_api.Base.{
  ℕ, Bool, true, false, ◌&&◌, not, Option, none, some, List, [], ◌∷◌, if◌then◌else◌, filter_by, All,
  ◌≡◌, refl, ap, ◌∙◌, subst, Bool-cases, inl, inr, arith,
}
use ai_backend_api.Base.Text.{Text, codes, text_eq, text_eq_iff}
use ai_backend_api.Base.Dict.{Dict, get}
use ai_backend_api.Base.Result.{Result, ok, err, ok_inj}
use ai_backend_api.Entity.Values.{TenantId, EmbeddingVector, Value, str, int, value_eq, Uuid}
use ai_backend_api.Entity.Document.{Document}
use ai_backend_api.Entity.Chunk.{Chunk}
use ai_backend_api.Entity.Chat.{SearchResult, search_result}
use ai_backend_api.Errors.{Exc}
use ai_backend_api.Exec.{continue, ◌>>=◌}
use ai_backend_api.UseCase.Process.{payload}
use ai_backend_api.Vector.{
  Qdrant, ScoredPoint, IsFiltering, Condition, meets, meets_all, payload_of, bind_option,
  filter_conditions, query_filter, metadata_of, parse_point, parse_points, search_vectors,
  other_filters,
}

-- A key that the filter keeps is looked up as before.
pub get-filter_by :
    (p : Text → Bool) (k : Text) (d : Dict Value)
    → p k ≡ true
    → get (filter_by (λ e. p e.0) d) k ≡ get d k
unfolding get filter_by
get-filter_by p k [] h = refl
get-filter_by p k ((j, v) ∷ d) h = elim (Bool-cases (text_eq j k)) [
  | inl same ↦
      let e : j ≡ k = (text_eq_iff j k).0 same in
      let kept : p j ≡ true = ap p e ∙ h in rw (same, kept) (rw same refl)
  | inr other ↦ elim (Bool-cases (p j)) [
    | inl kept ↦ rw (other, kept) (rw other (get-filter_by p k d h))
    | inr gone ↦ rw (other, gone) (get-filter_by p k d h)
  ]
]

-- A result carries a tenant in its metadata.
abbrev pub IsOf : TenantId → SearchResult → Type 0
IsOf t r = get r.metadata (codes "tenant_id") ≡ some (str t.value)

pub AllSome : {A : Type 0} → (A → Type 0) → Option A → Type 0
AllSome Q none = Unit
AllSome Q (some a) = Q a

bind_option-AllSome :
    {A B : Type 0} (Q : B → Type 0) (o : Option A) (f : A → Option B)
    → ((a : A) → AllSome Q (f a))
    → AllSome Q (bind_option o f)
unfolding AllSome bind_option
bind_option-AllSome Q none f h = tt
bind_option-AllSome Q (some a) f h = h a

guarded-AllSome :
    {A : Type 0} (Q : A → Type 0) (b : Bool) (a : A) → Q a → AllSome Q (if b then some a else none)
unfolding AllSome
guarded-AllSome Q true a h = h
guarded-AllSome Q false a h = tt

pub parse_point-metadata :
    (q : Qdrant) (fresh : Uuid) (p : ScoredPoint)
    → AllSome (λ r. r.metadata ≡ metadata_of (payload_of p)) (parse_point q fresh p)
unfolding parse_point search_result
parse_point-metadata q fresh p = bind_option-AllSome _ _ _ (λ chunk_id.
    bind_option-AllSome _ _ _ (λ document. bind_option-AllSome _ _ _ (λ document_id.
      bind_option-AllSome _ _ _ (λ collection. bind_option-AllSome _ _ _ (λ collection_id.
        bind_option-AllSome _ _ _ (λ content. bind_option-AllSome _ _ _ (λ title.
          bind_option-AllSome _ _ _
            (λ index. bind_option-AllSome _ _ _ (λ score. guarded-AllSome _ _ _ refl)))))))))

value_eq-str : (w : Value) (t : Text) → value_eq w (str t) ≡ true → w ≡ str t
value_eq-str (str s) t h = ap str ((text_eq_iff s t).0 h)
value_eq-str (int n) t h = absurd (cc)

found-get :
    (o : Option Value) (t : Text)
    → elim o [ none ↦ false | some w ↦ value_eq w (str t) ] ≡ true
    → o ≡ some (str t)
found-get none t h = absurd (cc)
found-get (some w) t h = ap some (value_eq-str w t h)

meets-get : (d : Dict Value) (k t : Text) → meets d (k, str t) ≡ true → get d k ≡ some (str t)
unfolding meets
meets-get d k t h = found-get (get d k) t h

first-meets :
    (d : Dict Value) (c : Condition) (cs : List Condition)
    → meets_all d (c ∷ cs) ≡ true
    → meets d c ≡ true
unfolding meets_all
first-meets d c cs h = ground (arith, h)

pub AllSome-mono :
    {A : Type 0} (P Q : A → Type 0) (o : Option A)
    → ((a : A) → P a → Q a)
    → AllSome P o
    → AllSome Q o
unfolding AllSome
AllSome-mono P Q none f h = tt
AllSome-mono P Q (some a) f h = f a h

pub All-cons_some :
    {A : Type 0} (Q : A → Type 0) (o : Option A) (rest : List A)
    → AllSome Q o
    → All Q rest
    → All Q (elim o [ none ↦ rest | some r ↦ r ∷ rest ])
unfolding AllSome
All-cons_some Q none rest h hs = hs
All-cons_some Q (some r) rest h hs = (h, hs)

metadata_of-get :
    (d : Dict Value) → get (metadata_of d) (codes "tenant_id") ≡ get d (codes "tenant_id")
unfolding metadata_of
metadata_of-get d =
    get-filter_by
      (λ k.
        not (text_eq k (codes "content"))
        && (not (text_eq k (codes "document_title")) && not (text_eq k (codes "chunk_index"))))
      (codes "tenant_id") d refl

module _ (q : Qdrant) (fresh : Uuid) (t : TenantId) (others : List Condition) where
  parse_point-IsOf :
      (p : ScoredPoint)
      → meets_all (payload_of p) ((codes "tenant_id", str t.value) ∷ others) ≡ true
      → AllSome (IsOf t) (parse_point q fresh p)
  parse_point-IsOf p h =
      let d = payload_of p in
      let e = meets-get d (codes "tenant_id") t.value (first-meets d _ others h) in
      AllSome-mono (λ r. r.metadata ≡ metadata_of d) (IsOf t) (parse_point q fresh p)
        (λ r m. ap (λ l. get l (codes "tenant_id")) m ∙ (metadata_of-get d ∙ e))
        (parse_point-metadata q fresh p)

  parse_points-IsOf :
      (points : List ScoredPoint)
      → All
          (λ p. meets_all (payload_of p) ((codes "tenant_id", str t.value) ∷ others) ≡ true)
          points
      → All (IsOf t) (parse_points q fresh points)
  unfolding parse_points
  parse_points-IsOf [] h = tt
  parse_points-IsOf (p ∷ ps) (h, hs) =
      All-cons_some (IsOf t) (parse_point q fresh p) (parse_points q fresh ps)
        (parse_point-IsOf p h) (parse_points-IsOf ps hs)

pub continue-ok :
    {S A B : Type 0} (r : Result Exc A) (f : A → B) (s : S) (b : B)
    → (continue r (λ a s'. (ok (f a), s')) s).0 ≡ ok b
    → (a : A) × (r ≡ ok a) × (f a ≡ b)
continue-ok (ok a) f s b h = (a, refl, ok_inj refl h)
continue-ok (err e) f s b h = absurd (cc)

-- If Qdrant filters as it is documented to, and a search with a tenant returns, every result comes
-- from a point of that tenant, whatever the other filters are, a filter on another tenant included.
pub search_vectors-IsOf :
    (q : Qdrant) (fresh : Uuid) (embedding : EmbeddingVector) (top_k : ℕ) (filters : Dict Value)
    (t : TenantId) (s : q.State) (results : List SearchResult)
    → IsFiltering q
    → (search_vectors q fresh embedding top_k filters (some t) s).0 ≡ ok results
    → All (IsOf t) results
unfolding search_vectors filter_conditions query_filter ◌>>=◌
search_vectors-IsOf q fresh embedding top_k filters t s results filtering h =
    let must = (codes "tenant_id", str t.value) ∷ other_filters filters in
    let answer = q.query_points embedding.values top_k (some must) s in
    let (points, found, e) = continue-ok answer.0 (parse_points q fresh) answer.1 results h in
    subst (All (IsOf t)) e (
      parse_points-IsOf q fresh t (other_filters filters) points
        (filtering embedding.values top_k must s points found))

-- The payload that the pipeline stores meets no tenant's condition: a search with a tenant finds
-- none of the documents ingested.
pub payload-meets_no_tenant :
    (document : Document) (c : Chunk) (t : TenantId) (others : Dict Value)
    → meets_all (payload document c) (filter_conditions (some t) others) ≡ false
unfolding payload meets_all meets filter_conditions get
payload-meets_no_tenant document c t others = refl
