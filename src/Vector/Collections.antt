-- ===== src/Vector/Collections.antt =====
-- ensure_collection of app/infrastructure/vector_db/qdrant_adapter.py. Shares are in hundredths.
use ai_backend_api.Base.{
  ℕ, Bool, true, false, ◌≡◌, refl, sym, ap, ◌∙◌, List, [], ◌∷◌, ◌++◌, append-nil, append_assoc,
}
use ai_backend_api.Base.Text.{Text, codes}
use ai_backend_api.Base.Result.{Result, ok, err}
use ai_backend_api.Errors.{Exc}
use ai_backend_api.Exec.{Exec, pure, continue, ◌>>=◌, ◌>>◌}

-- What a collection is created with.
pub record CollectionConfig : Type 0 where
  pub size : ℕ
  pub distance : Text
  pub on_disk : Bool
  pub indexing_threshold : ℕ
  pub scalar_type : Text
  pub quantile : ℕ
  pub always_ram : Bool

pub record CollectionClient : Type 1 where
  pub State : Type 0
  pub collection_exists : Text → Exec State Bool
  pub create_collection : Text → CollectionConfig → Exec State (Unit {0})
  -- collection, field and schema
  pub create_payload_index : Text → Text → Text → Exec State (Unit {0})

-- `_INDEXED_PAYLOAD_FIELDS`
abbrev pub indexed_payload_fields : List (Text × Text)
indexed_payload_fields =
    (codes "tenant_id", codes "keyword")
    ∷ (codes "collection_id", codes "keyword")
    ∷ (codes "document_id", codes "keyword")
    ∷ []

unfoldable pub config : ℕ → CollectionConfig
config vector_size = record {
  size = vector_size;
  distance = codes "Cosine";
  on_disk = false;
  indexing_threshold = 20_000;
  scalar_type = codes "int8";
  quantile = 99;
  always_ram = true;
}

module _ (client : CollectionClient) where
  -- The loop over the fields.
  unfoldable pub create_indexes : Text → List (Text × Text) → Exec client.State (Unit {0})
  create_indexes collection_name [] = pure tt
  create_indexes collection_name ((field_name, field_schema) ∷ fields) =
      client.create_payload_index collection_name field_name field_schema
      >> create_indexes collection_name fields

  unfoldable pub create : Text → ℕ → Exec client.State (Unit {0})
  unfolding config create_indexes
  create collection_name vector_size =
      client.create_collection collection_name (config vector_size)
      >> create_indexes collection_name indexed_payload_fields

  -- The branches of `if not exists`.
  unfoldable pub unless_exists : Text → ℕ → Bool → Exec client.State (Unit {0})
  unfolding create
  unless_exists collection_name vector_size true = pure tt
  unless_exists collection_name vector_size false = create collection_name vector_size

  unfoldable pub ensure_collection : Text → ℕ → Exec client.State (Unit {0})
  unfolding unless_exists
  ensure_collection collection_name vector_size = do
    exists ← client.collection_exists collection_name
    unless_exists collection_name vector_size exists

-- What Qdrant documents of collections and their indexes.
pub record IsCollections (client : CollectionClient) : Type 0 where
  pub known : client.State → Text → Bool
  pub indexes : client.State → Text → List Text
  pub exists-known :
      (name : Text) (s : client.State) → client.collection_exists name s ≡ (ok (known s name), s)
  pub known-create :
      (name : Text) (c : CollectionConfig) (s : client.State)
      → (client.create_collection name c s).0 ≡ ok tt
      → (known (client.create_collection name c s).1 name ≡ true)
        × (indexes (client.create_collection name c s).1 name ≡ [])
  pub known-index :
      (name field schema : Text) (s : client.State)
      → known (client.create_payload_index name field schema s).1 name ≡ known s name
  pub indexes-index :
      (name field schema : Text) (s : client.State)
      → (client.create_payload_index name field schema s).0 ≡ ok tt
      → indexes (client.create_payload_index name field schema s).1 name
        ≡ indexes s name ++ (field ∷ [])

abbrev pub fields_of : List (Text × Text) → List Text
fields_of [] = []
fields_of ((field, schema) ∷ rest) = field ∷ fields_of rest

module _ (client : CollectionClient) (laws : IsCollections client) where
  continue-known :
      (name : Text) (r : Result Exc (Unit {0})) (rest : Exec client.State (Unit {0}))
      (s : client.State)
      → ((s' : client.State) → laws.known (rest s').1 name ≡ laws.known s' name)
      → laws.known (continue r (λ _. rest) s).1 name ≡ laws.known s name
  continue-known name (ok a) rest s h = h s
  continue-known name (err e) rest s h = refl

  -- Indexes take no collection away, whether they are created or not.
  create_indexes-known :
      (name : Text) (fields : List (Text × Text)) (s : client.State)
      → laws.known (create_indexes client name fields s).1 name ≡ laws.known s name
  unfolding create_indexes ◌>>=◌
  create_indexes-known name [] s = refl
  create_indexes-known name ((field, schema) ∷ fields) s =
      continue-known name (client.create_payload_index name field schema s).0
        (create_indexes client name fields) (client.create_payload_index name field schema s).1
        (create_indexes-known name fields)
      ∙ laws.known-index name field schema s

  continue-ok :
      (r : Result Exc (Unit {0})) (rest : Exec client.State (Unit {0})) (s : client.State)
      → (continue r (λ _. rest) s).0 ≡ ok tt
      → (r ≡ ok tt) × ((rest s).0 ≡ ok tt) × ((continue r (λ _. rest) s).1 ≡ (rest s).1)
  continue-ok (ok a) rest s h = (refl, h, refl)
  continue-ok (err e) rest s h = absurd (cc)

  create_indexes-indexes :
      (name : Text) (fields : List (Text × Text)) (s : client.State)
      → (create_indexes client name fields s).0 ≡ ok tt
      → laws.indexes (create_indexes client name fields s).1 name
        ≡ laws.indexes s name ++ fields_of fields
  unfolding create_indexes ◌>>=◌
  create_indexes-indexes name [] s h = sym (append-nil (laws.indexes s name))
  create_indexes-indexes name ((field, schema) ∷ fields) s h =
      let (made, others, same) =
        continue-ok (client.create_payload_index name field schema s).0
          (create_indexes client name fields) (client.create_payload_index name field schema s).1
          h in
      ap (λ z. laws.indexes z name) same
      ∙ (create_indexes-indexes name fields _ others
          ∙ (ap (λ l. l ++ fields_of fields) (laws.indexes-index name field schema s made)
              ∙ append_assoc (laws.indexes s name) (field ∷ []) (fields_of fields)))

  ensure_collection_lem :
      (name : Text) (vector_size : ℕ) (b : Bool) (s : client.State)
      → laws.known s name ≡ b
      → ensure_collection client name vector_size s ≡ unless_exists client name vector_size b s
  unfolding ensure_collection ◌>>=◌
  ensure_collection_lem name vector_size b s h =
      ap (λ p. continue p.0 (unless_exists client name vector_size) p.1)
        (laws.exists-known name s ∙ ap (λ x. (ok x, s)) h)

  -- Once the collection is created, what follows are the indexes.
  create-indexes :
      (name : Text) (vector_size : ℕ) (s : client.State)
      → (client.create_collection name (config vector_size) s).0 ≡ ok tt
      → create client name vector_size s
        ≡ create_indexes client name indexed_payload_fields
            (client.create_collection name (config vector_size) s).1
  unfolding create ◌>>=◌
  create-indexes name vector_size s created =
      ap
        (λ r.
          continue r (λ _. create_indexes client name indexed_payload_fields)
            (client.create_collection name (config vector_size) s).1)
        created

  -- A new collection, once it is ensured, has the three indexes. But only the call that creates it
  -- makes them: if that call raises after the creation, the collection is there, and every later
  -- call reports success and changes nothing, so that missing indexes stay missing.
  pub ensure_collection-once :
      (name : Text) (vector_size later_size : ℕ) (s : client.State)
      → laws.known s name ≡ false
      → (client.create_collection name (config vector_size) s).0 ≡ ok tt
      → ((ensure_collection client name vector_size s).0 ≡ ok tt
          → laws.indexes (ensure_collection client name vector_size s).1 name
            ≡ codes "tenant_id" ∷ codes "collection_id" ∷ codes "document_id" ∷ [])
        × (ensure_collection client name later_size (ensure_collection client name vector_size s).1
            ≡ (ok tt, (ensure_collection client name vector_size s).1))
  unfolding unless_exists
  ensure_collection-once name vector_size later_size s fresh created =
      let s1 = (client.create_collection name (config vector_size) s).1 in
      let first : ensure_collection client name vector_size s
          ≡ create_indexes client name indexed_payload_fields s1 =
        ensure_collection_lem name vector_size false s fresh
        ∙ create-indexes name vector_size s created in
      let (there, empty) = laws.known-create name (config vector_size) s created in
      (
        λ returned.
            ap (λ p. laws.indexes p.1 name) first
            ∙ (create_indexes-indexes name indexed_payload_fields s1
                  (sym (ap (λ p. p.0) first) ∙ returned)
                ∙ ap (λ l. l ++ fields_of indexed_payload_fields) empty),
        ensure_collection_lem name later_size true (ensure_collection client name vector_size s).1 (
            ap (λ p. laws.known p.1 name) first
            ∙ (create_indexes-known name indexed_payload_fields s1 ∙ there)),
      )
