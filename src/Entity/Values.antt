-- ===== src/Entity/Values.antt =====
-- app/domain/value_objects: identifiers, pagination and embedding vectors.
use ai_backend_api.Base.{
  ap, ℕ, ◌≡◌, Bool, Option, none, some, List, arith, ◌==◌, ◌&&◌, leb, length, if◌then◌else◌,
}
use ai_backend_api.Base.Text.{Text, codes, show, text_eq}
use ai_backend_api.Base.Result.{Result, ok, err}
use mathlib.Core.List.{◌++◌}

-- A `uuid.UUID`, by its canonical text: `str(u)` is the identity.
abbrev pub Uuid : Type 0
Uuid = Text

-- DocumentId, ChunkId, CollectionId, UserId, IngestionJobId, TenantId: frozen, equal by value.
pub record DocumentId : Type 0 where
  pub value : Uuid

pub record ChunkId : Type 0 where
  pub value : Uuid

pub record CollectionId : Type 0 where
  pub value : Uuid

pub record UserId : Type 0 where
  pub value : Uuid

pub record IngestionJobId : Type 0 where
  pub value : Uuid

pub record TenantId : Type 0 where
  pub value : Uuid

-- `uuid.UUID(value)` of the standard library: the canonical text of what `value` spells, or
-- `ValueError`.
abbrev pub UuidParser : Type 0
UuidParser = Text → Option Uuid

unfoldable pub document_id_from_str : UuidParser → Text → Option DocumentId
document_id_from_str parse v = elim (parse v) [ none ↦ none | some u ↦ some (record { value = u }) ]

unfoldable pub chunk_id_from_str : UuidParser → Text → Option ChunkId
chunk_id_from_str parse v = elim (parse v) [ none ↦ none | some u ↦ some (record { value = u }) ]

unfoldable pub collection_id_from_str : UuidParser → Text → Option CollectionId
collection_id_from_str parse v = elim (parse v) [
  | none ↦ none
  | some u ↦ some (record { value = u })
]

unfoldable pub user_id_from_str : UuidParser → Text → Option UserId
user_id_from_str parse v = elim (parse v) [ none ↦ none | some u ↦ some (record { value = u }) ]

unfoldable pub job_id_from_str : UuidParser → Text → Option IngestionJobId
job_id_from_str parse v = elim (parse v) [ none ↦ none | some u ↦ some (record { value = u }) ]

unfoldable pub tenant_id_from_str : UuidParser → Text → Option TenantId
tenant_id_from_str parse v = elim (parse v) [ none ↦ none | some u ↦ some (record { value = u }) ]

-- A value of a `dict[str, Any]`: the program stores texts and numbers.
pub data Value : Type 0 where
  str : Text → Value
  int : ℕ → Value

abbrev pub value_eq : Value → Value → Bool
value_eq (str a) (str b) = text_eq a b
value_eq (int a) (int b) = a == b
value_eq _ _ = Bool.false

pub record PaginationParams : Type 0 where
  pub offset : ℕ
  pub limit : ℕ

-- The field constraints `ge=0`, `ge=1`, `le=100`; a natural offset meets the first.
unfoldable pub pagination_params : ℕ → ℕ → Option PaginationParams
pagination_params offset limit =
    if leb 1 limit && leb limit 100 then some (record { offset = offset; limit = limit }) else none

-- Vector components are opaque numbers: the program only counts and copies them.
pub record EmbeddingVector : Type 0 where
  pub values : List ℕ
  pub model : Text
  pub dimensions : ℕ

-- The constructor with its validator.
unfoldable pub embedding_vector : List ℕ → Text → ℕ → Result Text EmbeddingVector
embedding_vector values model dimensions =
    if length values == dimensions
    then ok (record { values = values; model = model; dimensions = dimensions })
    else err (
        codes "Expected "
        ++ (show dimensions ++ (codes " dimensions, got " ++ show (length values))))

abbrev pub IsWellSized : EmbeddingVector → Type 0
IsWellSized e = length e.values ≡ e.dimensions

pub embedding_vector-IsWellSized :
    (values : List ℕ) (model : Text) (dimensions : ℕ) {e : EmbeddingVector}
    → embedding_vector values model dimensions ≡ ok e
    → IsWellSized e
unfolding embedding_vector
embedding_vector-IsWellSized values model dimensions h = ground arith

-- A text that `uuid.UUID` reads gives the identifier.
pub document_id_from_str-some :
    (parse : UuidParser) (v u : Text)
    → parse v ≡ some u
    → document_id_from_str parse v ≡ some (record { value = u })
unfolding document_id_from_str
document_id_from_str-some parse v u h =
    ap (λ (o : Option Uuid). elim o [ none ↦ none | some w ↦ some (record { value = w }) ]) h

pub chunk_id_from_str-some :
    (parse : UuidParser) (v u : Text)
    → parse v ≡ some u
    → chunk_id_from_str parse v ≡ some (record { value = u })
unfolding chunk_id_from_str
chunk_id_from_str-some parse v u h =
    ap (λ (o : Option Uuid). elim o [ none ↦ none | some w ↦ some (record { value = w }) ]) h

pub collection_id_from_str-some :
    (parse : UuidParser) (v u : Text)
    → parse v ≡ some u
    → collection_id_from_str parse v ≡ some (record { value = u })
unfolding collection_id_from_str
collection_id_from_str-some parse v u h =
    ap (λ (o : Option Uuid). elim o [ none ↦ none | some w ↦ some (record { value = w }) ]) h

pub user_id_from_str-some :
    (parse : UuidParser) (v u : Text)
    → parse v ≡ some u
    → user_id_from_str parse v ≡ some (record { value = u })
unfolding user_id_from_str
user_id_from_str-some parse v u h =
    ap (λ (o : Option Uuid). elim o [ none ↦ none | some w ↦ some (record { value = w }) ]) h

pub job_id_from_str-some :
    (parse : UuidParser) (v u : Text)
    → parse v ≡ some u
    → job_id_from_str parse v ≡ some (record { value = u })
unfolding job_id_from_str
job_id_from_str-some parse v u h =
    ap (λ (o : Option Uuid). elim o [ none ↦ none | some w ↦ some (record { value = w }) ]) h

pub tenant_id_from_str-some :
    (parse : UuidParser) (v u : Text)
    → parse v ≡ some u
    → tenant_id_from_str parse v ≡ some (record { value = u })
unfolding tenant_id_from_str
tenant_id_from_str-some parse v u h =
    ap (λ (o : Option Uuid). elim o [ none ↦ none | some w ↦ some (record { value = w }) ]) h
