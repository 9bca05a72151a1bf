-- ===== src/UseCase/Search/Wired.antt =====
-- The search use case over the vector store, as app/container.py wires it: no tenant is passed on.
use ai_backend_api.Base.{
  ℕ, Bool, true, false, not, List, All, Option, none, some, [], ◌∷◌, ◌≡◌, refl, sym, ap, ◌∙◌,
  filter_by, filter-filter, Bool-cases, inl, inr,
}
use ai_backend_api.Base.Dict.{Dict, put}
use ai_backend_api.Base.Text.{Text, codes, text_eq, text_eq_iff}
use ai_backend_api.Entity.Values.{EmbeddingVector, Value, Uuid, str}
use ai_backend_api.Base.Result.{Result}
use ai_backend_api.Errors.{Exc}
use ai_backend_api.Exec.{Exec, ◌>>=◌, pure}
use ai_backend_api.UseCase.Search.{
  SearchBackend, SearchRequest, execute, search_filters, with_collection, given_filters,
}
use ai_backend_api.Vector.{
  Qdrant, Condition, search_vectors, other_filters, filter_conditions, query_filter, parse_points,
}

-- `if filters:` treats None and the empty dictionary alike.
abbrev pub or_empty : Option (Dict Value) → Dict Value
or_empty none = []
or_empty (some filters) = filters

abbrev pub wired :
    (q : Qdrant)
    → Uuid
    → (Text → Text → Result Exc ℕ)
    → (Text → Exec q.State EmbeddingVector)
    → SearchBackend
wired q fresh count_tokens embed = record {
  State = q.State;
  count_tokens = count_tokens;
  embed = embed;
  search =
      λ embedding top_k filters. search_vectors q fresh embedding top_k (or_empty filters) none;
}

filter_by-put :
    (p : Text → Bool) (d : Dict Value) (k : Text) (v : Value)
    → p k ≡ true
    → filter_by (λ e. p e.0) (put d k v) ≡ put (filter_by (λ e. p e.0) d) k v
unfolding filter_by put
filter_by-put p [] k v h = rw h refl
filter_by-put p ((j, w) ∷ d) k v h = elim (Bool-cases (text_eq j k)) [
  | inl same ↦
      let kept : p j ≡ true = ap p ((text_eq_iff j k).0 same) ∙ h in rw (same, kept) (rw same refl)
  | inr other ↦ elim (Bool-cases (p j)) [
    | inl kept ↦ rw (other, kept) (rw (other, filter_by-put p d k v h) refl)
    | inr dead ↦ rw (other, dead) (filter_by-put p d k v h)
  ]
]

other_filters-twice : (d : Dict Value) → other_filters (other_filters d) ≡ other_filters d
unfolding other_filters
other_filters-twice d = filter-filter _ _ (λ e h. h) d

other_filters-put :
    (d : Dict Value) (v : Value)
    → other_filters (put d (codes "collection_id") v)
      ≡ other_filters (put (other_filters d) (codes "collection_id") v)
unfolding other_filters
other_filters-put d v =
    let keeps : Text → Bool = λ k. not (text_eq k (codes "tenant_id")) in
    filter_by-put keeps d (codes "collection_id") v refl
    ∙ sym (
        filter_by-put keeps (other_filters d) (codes "collection_id") v refl
        ∙ ap (λ l. put l (codes "collection_id") v) (other_filters-twice d))

or_empty-given : (d : Dict Value) → or_empty (given_filters d) ≡ d
or_empty-given [] = refl
or_empty-given (e ∷ es) = refl

or_empty-with_collection :
    (c : ℕ) (cs : Text) (d : Dict Value)
    → or_empty (with_collection (some (c ∷ cs)) (given_filters d))
      ≡ put d (codes "collection_id") (str (c ∷ cs))
or_empty-with_collection c cs [] = refl
or_empty-with_collection c cs (e ∷ es) = refl

other_filters-given :
    (d : Dict Value)
    → other_filters (or_empty (given_filters d))
      ≡ other_filters (or_empty (given_filters (other_filters d)))
other_filters-given d =
    ap other_filters (or_empty-given d)
    ∙ sym (ap other_filters (or_empty-given (other_filters d)) ∙ other_filters-twice d)

-- What is sent to the store is the same with and without a filter on a tenant.
conditions_lem :
    (collection_id : Option Text) (d : Dict Value)
    → other_filters (or_empty (with_collection collection_id (given_filters d)))
      ≡ other_filters (or_empty (with_collection collection_id (given_filters (other_filters d))))
conditions_lem none d = other_filters-given d
conditions_lem (some []) d = other_filters-given d
conditions_lem (some (c ∷ cs)) d =
    ap other_filters (or_empty-with_collection c cs d)
    ∙ (other_filters-put d (str (c ∷ cs))
        ∙ sym (ap other_filters (or_empty-with_collection c cs (other_filters d))))

-- The use case over the vector store asked with given conditions alone.
abbrev pub asking :
    (q : Qdrant)
    → Uuid
    → (Text → Text → Result Exc ℕ)
    → (Text → Exec q.State EmbeddingVector)
    → Option (List Condition)
    → SearchBackend
asking q fresh count_tokens embed must = record {
  State = q.State;
  count_tokens = count_tokens;
  embed = embed;
  search = λ embedding top_k filters. do
    points ← q.query_points embedding.values top_k must
    pure (parse_points q fresh points);
}

abbrev pub names_tenant : Condition → Bool
names_tenant c = text_eq c.0 (codes "tenant_id")

other_filters-tenantless : (d : Dict Value) → All (λ c. names_tenant c ≡ false) (other_filters d)
unfolding other_filters filter_by
other_filters-tenantless [] = tt
other_filters-tenantless (e ∷ es) = elim (Bool-cases (text_eq e.0 (codes "tenant_id"))) [
  | inl named ↦ rw named (other_filters-tenantless es)
  | inr other ↦ rw other (other, other_filters-tenantless es)
]

-- What a client's search asks of the vector store are conditions none of which names a tenant,
-- whatever filters it sends; and a filter on a tenant that a client sends has no effect: the search
-- finds the same without it.
pub execute-unscoped :
    (q : Qdrant) (fresh : Uuid) (count_tokens : Text → Text → Result Exc ℕ)
    (embed : Text → Exec q.State EmbeddingVector) (request : SearchRequest) (s : q.State)
    → ((must : List Condition) × All (λ c. names_tenant c ≡ false) must
        × (execute (wired q fresh count_tokens embed) request s
            ≡ execute (asking q fresh count_tokens embed (query_filter must)) request s))
      × (execute (wired q fresh count_tokens embed) request s
          ≡ execute
              (wired q fresh count_tokens embed)
              (record request { filters = other_filters request.filters })
              s)
unfolding execute search_vectors filter_conditions search_filters ◌>>=◌
execute-unscoped q fresh count_tokens embed request s = (
  (
    other_filters
        (or_empty (with_collection request.collection_id (given_filters request.filters))),
    other_filters-tenantless
        (or_empty (with_collection request.collection_id (given_filters request.filters))),
    refl,
  ),
  rw (conditions_lem request.collection_id request.filters) refl,
)
