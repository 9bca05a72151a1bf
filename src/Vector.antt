-- ===== src/Vector.antt =====
-- app/infrastructure/vector_db/qdrant_adapter.py. The Qdrant client is a parameter; vectors are
-- lists of opaque numbers, and scores are fractions of `score_one`, negative ones included.
pub mod Isolation
pub mod Deletion
pub mod Collections
use ai_backend_api.Base.{
  ℕ, zero, suc, Bool, true, false, ◌&&◌, not, Option, none, some, List, [], ◌∷◌, ◌++◌, map,
  if◌then◌else◌, filter_by, length, ◌≤◌, ◌≡◌, All,
}
use ai_backend_api.Base.Text.{Text, codes, text_eq}
use ai_backend_api.Base.Int.{ℤ, pos, negsuc}
use ai_backend_api.Base.Dict.{Dict, get}
use ai_backend_api.Base.Result.{Result, ok, err}
use ai_backend_api.Entity.Values.{
  UuidParser, Uuid, ChunkId, DocumentId, CollectionId, TenantId, EmbeddingVector, Value, str, int,
  value_eq, chunk_id_from_str, document_id_from_str, collection_id_from_str,
}
use ai_backend_api.Entity.Chat.{SearchResult, search_result}
use ai_backend_api.Errors.{Exc}
use ai_backend_api.Exec.{Exec, pure, ◌>>=◌}
use ai_backend_api.UseCase.Process.{Entry}

-- `FieldCondition(key=k, match=MatchValue(value=v))`
abbrev pub Condition : Type 0
Condition = Text × Value

pub record Point : Type 0 where
  pub id : Text
  pub vector : List ℕ
  pub point_payload : Dict Value

pub record ScoredPoint : Type 0 where
  pub id : Text
  pub score : ℤ
  pub payload : Option (Dict Value)

pub record Qdrant : Type 1 where
  pub State : Type 0
  pub query_points : List ℕ → ℕ → Option (List Condition) → Exec State (List ScoredPoint)
  pub upsert : List Point → Exec State (Unit {0})
  -- Pydantic's reading of a text as an integer
  pub int_of_text : Text → Option ℕ
  pub parse_uuid : UuidParser

-- The fields of a payload meet a condition.
unfoldable pub meets : Dict Value → Condition → Bool
meets payload (k, v) = elim (get payload k) [ none ↦ false | some w ↦ value_eq w v ]

unfoldable pub meets_all : Dict Value → List Condition → Bool
meets_all payload [] = true
meets_all payload (c ∷ cs) = meets payload c && meets_all payload cs

abbrev pub payload_of : ScoredPoint → Dict Value
payload_of p = elim p.payload [ none ↦ [] | some d ↦ d ]

-- The documented meaning of `Filter(must=…)`: every point of an answer meets every condition.
abbrev pub IsFiltering : Qdrant → Type 0
IsFiltering q =
    (vector : List ℕ) (limit : ℕ) (must : List Condition) (s : q.State) (points : List ScoredPoint)
    → (q.query_points vector limit (some must) s).0 ≡ ok points
    → All (λ p. meets_all (payload_of p) must ≡ true) points

unfoldable pub other_filters : Dict Value → List Condition
other_filters filters = filter_by (λ e. not (text_eq e.0 (codes "tenant_id"))) filters

-- The conditions, the tenant's first; `filters` None is the empty dictionary.
unfoldable pub filter_conditions : Option TenantId → Dict Value → List Condition
filter_conditions none filters = other_filters filters
filter_conditions (some t) filters = (codes "tenant_id", str t.value) ∷ other_filters filters

unfoldable pub query_filter : List Condition → Option (List Condition)
query_filter [] = none
query_filter (c ∷ cs) = some (c ∷ cs)

-- A text field of a payload, with its default; a number is refused.
abbrev pub text_field : Dict Value → Text → Text → Option Text
text_field payload k default = elim (get payload k) [
  | none ↦ some default
  | some (str t) ↦ some t
  | some (int n) ↦ none
]

-- The metadata of a result: the payload without what has a field of its own.
unfoldable pub metadata_of : Dict Value → Dict Value
metadata_of payload =
    filter_by
      (λ e.
        not (text_eq e.0 (codes "content"))
        && (not (text_eq e.0 (codes "document_title")) && not (text_eq e.0 (codes "chunk_index"))))
      payload

unfoldable pub bind_option : {A B : Type 0} → Option A → (A → Option B) → Option B
bind_option none f = none
bind_option (some a) f = f a

module _ (q : Qdrant) where
  abbrev pub index_field : Dict Value → Option ℕ
  index_field payload = elim (get payload (codes "chunk_index")) [
    | none ↦ some 0
    | some (int n) ↦ some n
    | some (str t) ↦ q.int_of_text t
  ]

  abbrev score_field : ℤ → Option ℕ
  score_field (pos n) = some n
  score_field (negsuc n) = none

  -- A point as a result; None where the source catches an exception and leaves the point out.
  unfoldable pub parse_point : Uuid → ScoredPoint → Option SearchResult
  unfolding search_result metadata_of
  parse_point fresh point =
      let payload = payload_of point in
      bind_option (chunk_id_from_str q.parse_uuid point.id) (λ chunk_id.
        bind_option (text_field payload (codes "document_id") []) (λ document.
          bind_option (document_id_from_str q.parse_uuid document) (λ document_id.
            bind_option (text_field payload (codes "collection_id") fresh) (λ collection.
              bind_option (collection_id_from_str q.parse_uuid collection) (λ collection_id.
                bind_option (text_field payload (codes "content") []) (λ content.
                  bind_option (text_field payload (codes "document_title") []) (λ title.
                    bind_option (index_field payload) (λ index.
                      bind_option (score_field point.score) (λ score.
                        search_result chunk_id document_id collection_id content score
                          (metadata_of payload) title index)))))))))

  unfoldable pub parse_points : Uuid → List ScoredPoint → List SearchResult
  unfolding parse_point
  parse_points fresh [] = []
  parse_points fresh (p ∷ ps) =
      let rest = parse_points fresh ps in
      elim (parse_point fresh p) [ none ↦ rest | some r ↦ r ∷ rest ]

  -- `search`; `fresh` is the default collection of a point without one.
  unfoldable pub search_vectors :
      Uuid → EmbeddingVector → ℕ → Dict Value → Option TenantId → Exec q.State (List SearchResult)
  unfolding parse_points
  search_vectors fresh query_embedding top_k filters tenant_id = do
    points ←
        q.query_points query_embedding.values top_k
          (query_filter (filter_conditions tenant_id filters))
    pure (parse_points fresh points)

  abbrev point_of : Entry → Point
  point_of e = record {
    id = e.chunk_id.value;
    vector = e.embedding.values;
    point_payload = e.payload;
  }

  unfoldable pub upsert_many : List Entry → Exec q.State (Unit {0})
  upsert_many [] = pure tt
  upsert_many (e ∷ es) = q.upsert (map point_of (e ∷ es))
