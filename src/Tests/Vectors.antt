-- ===== src/Tests/Vectors.antt =====
-- Examples on the upkeep of the vector store: a Qdrant of one collection with at most one point.
use ai_backend_api.Base.{
  ℕ, Bool, true, false, ◌≡◌, refl, sym, ap, ◌∙◌, subst, Option, none, some, List, [], ◌∷◌, ◌++◌,
  All, filter_by, if◌then◌else◌,
}
use ai_backend_api.Base.Text.{Text, codes}
use ai_backend_api.Base.Dict.{Dict, is_some, get}
use ai_backend_api.Base.Result.{ok, err, ok_inj}
use ai_backend_api.Base.Int.{pos}
use ai_backend_api.Entity.Chat.{SearchResult}
use ai_backend_api.Entity.Values.{
  EmbeddingVector, Value, str, document_id_from_str, chunk_id_from_str, collection_id_from_str,
}
use ai_backend_api.Errors.{Exc}
use ai_backend_api.UseCase.Search.{SearchRequest, execute}
use ai_backend_api.UseCase.Search.Wired.{asking, names_tenant, wired, execute-unscoped}
use ai_backend_api.Exec.{Exec, ◌>>=◌}
use ai_backend_api.Vector.{
  other_filters, Qdrant, ScoredPoint, Condition, meets_all, meets, bind_option, payload_of,
  search_vectors, query_filter,
}
use ai_backend_api.Vector.Deletion.{
  Deletions, IsDeleting, IsOther, delete_by_document, search_vectors-delete_by_document,
}
use ai_backend_api.Vector.Collections.{
  CollectionClient, IsCollections, ensure_collection, ensure_collection-once,
}

abbrev answered : Option (Dict Value) → List ScoredPoint
answered none = []
answered (some p) = record { id = codes "k"; score = pos 900_000; payload = some p } ∷ []

abbrev one_point : Qdrant
one_point = record {
  State = Option (Dict Value);
  query_points = λ vector limit must s. (ok (answered s), s);
  upsert = λ points s. (ok tt, s);
  int_of_text = λ t. none;
  parse_uuid = λ t. some t;
}

abbrev without : List Condition → Option (Dict Value) → Option (Dict Value)
without must none = none
without must (some p) = if meets_all p must then none else some p

abbrev deletions : Deletions one_point
deletions = record {
  delete_points = λ ids s. (ok (some tt), none);
  delete_matching = λ must s. (ok tt, without must s);
}

abbrev Stores : Option (Dict Value) → Dict Value → Type 0
Stores none p = ⊥
Stores (some q) p = q ≡ p

answered-Stores : (s : Option (Dict Value)) → All (λ p. Stores s (payload_of p)) (answered s)
answered-Stores none = tt
answered-Stores (some p) = (refl, tt)

spared_point :
    (b : Bool) (must : List Condition) (q p : Dict Value)
    → meets_all q must ≡ b
    → Stores (if b then none else some q) p
    → (q ≡ p) × (meets_all p must ≡ false)
spared_point true must q p m h = absurd h
spared_point false must q p m h = (h, ap (λ x. meets_all x must) (sym h) ∙ m)

spared :
    (must : List Condition) (s : Option (Dict Value)) (p : Dict Value)
    → Stores (without must s) p
    → Stores s p × (meets_all p must ≡ false)
spared must none p h = absurd h
spared must (some q) p h = spared_point (meets_all q must) must q p refl h

abbrev one_point-IsDeleting : IsDeleting one_point deletions
one_point-IsDeleting = record {
  Stores = Stores;
  stores-query_points = λ vector limit must s points h.
      subst (All (λ p. Stores s (payload_of p))) (ok_inj refl h) (answered-Stores s);
  stores-delete_matching = λ must s p h k. spared must s p k;
}

abbrev stored : Option (Dict Value)
stored = some (
    (codes "document_id", str (codes "d"))
    ∷ (codes "collection_id", str (codes "c"))
    ∷ (codes "content", str (codes "Hello"))
    ∷ [])

abbrev found : SearchResult
found = record {
  chunk_id = record { value = codes "k" };
  document_id = record { value = codes "d" };
  collection_id = record { value = codes "c" };
  content = codes "Hello";
  score = 900_000;
  metadata = (codes "document_id", str (codes "d")) ∷ (codes "collection_id", str (codes "c")) ∷ [];
  document_title = [];
  chunk_index = 0;
}

abbrev answer_count : ℕ
answer_count = 0

-- Deleting another document leaves the point.
search_vectors-delete_by_document_example :
    (answer_count ≡ 0) × All (IsOther (record { value = codes "other" })) (found ∷ [])
unfolding delete_by_document search_vectors ◌>>=◌ meets_all meets get filter_by bind_option
    chunk_id_from_str document_id_from_str collection_id_from_str
search_vectors-delete_by_document_example =
    search_vectors-delete_by_document one_point deletions one_point-IsDeleting
      (record { value = codes "other" }) stored stored answer_count (codes "f")
      (record { values = 1 ∷ []; model = codes "m"; dimensions = 1 }) 5 [] none (found ∷ []) refl
      refl

abbrev refused : Exc
refused = Exc.other_error (codes "no such collection")

-- One collection, by the fields that it has an index for.
abbrev one_collection : CollectionClient
one_collection = record {
  State = Option (List Text);
  collection_exists = λ name s. (ok (is_some s), s);
  create_collection = λ name c s. (ok tt, some []);
  create_payload_index = λ name field schema s. elim s [
    | none ↦ (err refused, none)
    | some fields ↦ (ok tt, some (fields ++ (field ∷ [])))
  ];
}

abbrev indexes_in : Option (List Text) → List Text
indexes_in none = []
indexes_in (some fields) = fields

index_known :
    (name field schema : Text) (s : Option (List Text))
    → is_some (one_collection.create_payload_index name field schema s).1 ≡ is_some s
index_known name field schema none = refl
index_known name field schema (some fields) = refl

index_added :
    (name field schema : Text) (s : Option (List Text))
    → (one_collection.create_payload_index name field schema s).0 ≡ ok tt
    → indexes_in (one_collection.create_payload_index name field schema s).1
      ≡ indexes_in s ++ (field ∷ [])
index_added name field schema none h = absurd (cc)
index_added name field schema (some fields) h = refl

abbrev one_collection-IsCollections : IsCollections one_collection
one_collection-IsCollections = record {
  known = λ s name. is_some s;
  indexes = λ s name. indexes_in s;
  exists-known = λ name s. refl;
  known-create = λ name c s h. (refl, refl);
  known-index = index_known;
  indexes-index = index_added;
}

ensure_collection-once_example :
    ((ensure_collection one_collection (codes "documents") 1536 none).0 ≡ ok tt
      → indexes_in (ensure_collection one_collection (codes "documents") 1536 none).1
        ≡ codes "tenant_id" ∷ codes "collection_id" ∷ codes "document_id" ∷ [])
    × (ensure_collection one_collection
          (codes "documents")
          3072
          (ensure_collection one_collection (codes "documents") 1536 none).1
        ≡ (ok tt, (ensure_collection one_collection (codes "documents") 1536 none).1))
ensure_collection-once_example =
    ensure_collection-once one_collection one_collection-IsCollections (codes "documents") 1536 3072
      none refl refl

abbrev embed_one : Text → Exec (Option (Dict Value)) EmbeddingVector
embed_one text s = (ok (record { values = 1 ∷ []; model = codes "m"; dimensions = 1 }), s)

abbrev tenant_request : SearchRequest
tenant_request = record {
  query = codes "why?";
  collection_id = some (codes "c");
  top_k = 5;
  filters = (codes "tenant_id", str (codes "t")) ∷ [];
}

execute-unscoped_example :
    ((must : List Condition) × All (λ c. names_tenant c ≡ false) must
      × (execute (wired one_point (codes "f") (λ text model. ok 1) embed_one) tenant_request stored
          ≡ execute
              (asking one_point (codes "f") (λ text model. ok 1) embed_one (query_filter must))
              tenant_request
              stored))
    × (execute (wired one_point (codes "f") (λ text model. ok 1) embed_one) tenant_request stored
        ≡ execute
            (wired one_point (codes "f") (λ text model. ok 1) embed_one)
            (record tenant_request { filters = other_filters tenant_request.filters })
            stored)
execute-unscoped_example =
    execute-unscoped one_point (codes "f") (λ text model. ok 1) embed_one tenant_request stored
