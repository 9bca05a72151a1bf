-- ===== src/Tests/Stores.antt =====
-- Examples on the repositories and the vector store.
use mathlib.Core.Option
use ai_backend_api.Base.{
  some_inj, ap, ℕ, ◌≡◌, refl, true, false, Option, none, some, List, [], ◌∷◌, All, filter_by,
  filter_by-All, subst,
}
use ai_backend_api.Base.Text.{Text, codes, text_eq}
use ai_backend_api.Base.Int.{pos}
use ai_backend_api.Base.Dict.{get}
use ai_backend_api.Base.Result.{ok, ok_inj}
use ai_backend_api.Exec.{◌>>=◌}
use ai_backend_api.Entity.Values.{
  str, document_id_from_str, chunk_id_from_str, collection_id_from_str,
}
use ai_backend_api.Entity.Identity.{Entity}
use ai_backend_api.Entity.Document.{Document, DocumentStatus}
use ai_backend_api.Entity.Chunk.{Chunk}
use ai_backend_api.Entity.Chat.{SearchResult}
use ai_backend_api.Repository.MemoryDocument
use ai_backend_api.Repository.MemoryDocument.{
  newer, in_collection, get_by_collection, count_by_collection,
}
use ai_backend_api.Repository.MemoryChunk
use ai_backend_api.Repository.MemoryChunk.{
  in_document, earlier, count_by_document, delete_by_document, save_many, get_by_document,
}
use ai_backend_api.Vector.{
  Qdrant, ScoredPoint, IsFiltering, meets, meets_all, payload_of, filter_conditions, search_vectors,
  Condition, bind_option, query_filter, other_filters,
}
use ai_backend_api.Vector.Isolation.{IsOf, search_vectors-IsOf}
use ai_backend_api.Entity.Tenant.{Tenant, TenantPlan}
use ai_backend_api.Entity.Chat.{ChatMessage, MessageRole}
use ai_backend_api.Repository.Tenants
use ai_backend_api.Repository.Tenants.Cache.{delete-stale, update-refreshes}
use ai_backend_api.Repository.ChatHistory.{Codec}

abbrev entity : Entity
entity = record { id = codes "e"; created_at = 1; updated_at = 1 }

abbrev document : Document
document = record {
  entity = entity;
  tenant_id = record { value = codes "t" };
  document_id = record { value = codes "d" };
  collection_id = record { value = codes "c" };
  title = codes "T";
  content = codes "Hello";
  content_type = codes "text/plain";
  metadata = [];
  status = DocumentStatus.pending;
  chunk_count = 0;
  token_count = 0;
  error_message = none;
}

abbrev documents : MemoryDocument.Store
documents =
    (codes "d", document)
    ∷ (
      codes "n",
      record document {
        document_id = record { value = codes "n" };
        entity = record { id = codes "n"; created_at = 7; updated_at = 7 };
      },
    )
    ∷ []

abbrev chunk_of : Text → ℕ → Chunk
chunk_of id index = record {
  entity = entity;
  tenant_id = record { value = codes "t" };
  chunk_id = record { value = id };
  document_id = record { value = codes "d" };
  collection_id = record { value = codes "c" };
  content = codes "text";
  chunk_index = index;
  start_char = pos 0;
  end_char = pos 4;
  token_count = 1;
  embedding = none;
  metadata = [];
}

abbrev batch : List Chunk
batch = chunk_of (codes "k1") 1 ∷ chunk_of (codes "k0") 0 ∷ []

abbrev chunks : MemoryChunk.Store
chunks = (codes "k1", chunk_of (codes "k1") 1) ∷ (codes "k0", chunk_of (codes "k0") 0) ∷ []

-- A collection of one point per tenant, which answers what meets the conditions.
abbrev point_of_tenant : Text → ScoredPoint
point_of_tenant t = record {
  id = codes "p";
  score = pos 900_000;
  payload = some ((codes "document_id", str (codes "d")) ∷ (codes "tenant_id", str t) ∷ []);
}

abbrev kept_points : List Condition → List ScoredPoint → List ScoredPoint
kept_points must ps = filter_by (λ p. meets_all (payload_of p) must) ps

abbrev points_for : Option (List Condition) → List ScoredPoint
points_for none = point_of_tenant (codes "t") ∷ point_of_tenant (codes "u") ∷ []
points_for (some must) =
    kept_points must (point_of_tenant (codes "t") ∷ point_of_tenant (codes "u") ∷ [])

abbrev qdrant : Qdrant
qdrant = record {
  State = Unit;
  query_points = λ vector limit must s. (ok (points_for must), s);
  upsert = λ points s. (ok tt, s);
  int_of_text = λ t. none;
  parse_uuid = λ t. some t;
}

qdrant-IsFiltering : IsFiltering qdrant
qdrant-IsFiltering vector limit must s points h =
    subst (λ ps. All (λ p. meets_all (payload_of p) must ≡ true) ps) (ok_inj refl h)
      (filter_by-All (λ p. meets_all (payload_of p) must)
        (point_of_tenant (codes "t") ∷ point_of_tenant (codes "u") ∷ []))

abbrev tenant_result : SearchResult
tenant_result = record {
  chunk_id = record { value = codes "p" };
  document_id = record { value = codes "d" };
  collection_id = record { value = codes "f" };
  content = [];
  score = 900_000;
  metadata = (codes "document_id", str (codes "d")) ∷ (codes "tenant_id", str (codes "t")) ∷ [];
  document_title = [];
  chunk_index = 0;
}

-- The filter asks for the tenant "u" and is overruled.
search_vectors-IsOf_example : All (IsOf (record { value = codes "t" })) (tenant_result ∷ [])
unfolding search_vectors bind_option filter_by meets_all filter_conditions query_filter get ◌>>=◌
    chunk_id_from_str document_id_from_str collection_id_from_str meets other_filters
search_vectors-IsOf_example =
    search_vectors-IsOf qdrant (codes "f")
      (record { values = 1 ∷ []; model = codes "m"; dimensions = 1 }) 5
      ((codes "tenant_id", str (codes "u")) ∷ []) (record { value = codes "t" }) tt
      (tenant_result ∷ []) qdrant-IsFiltering refl

abbrev tenant : Tenant
tenant = record {
  entity = entity;
  tenant_id = record { value = codes "t" };
  name = codes "Acme";
  api_key_hash = codes "h";
  plan = TenantPlan.free;
  is_active = true;
  tokens_used_this_month = 0;
  total_tokens_used = 0;
  metadata = [];
}

-- Texts of which one is read as the tenant.
abbrev tenant_cache : Tenants.TenantCache
tenant_cache = record {
  dumps = λ t. t.name;
  loads = λ text. elim (text_eq text (codes "Acme")) [ true ↦ some tenant | false ↦ none ];
  accepts = λ hash. true;
}

abbrev cached_tenants : Tenants.Store
unfolding Tenants.row_of
cached_tenants = record {
  rows = Tenants.row_of tenant ∷ [];
  cache = (codes "h", codes "Acme") ∷ [];
}

delete-stale_example :
    ((Tenants.get_by_api_key_hash tenant_cache
        (codes "e9")
        (codes "h")
        (Tenants.delete 9 (record { value = codes "t" }) cached_tenants).1).0
      ≡ some tenant)
    × ((u : Tenant)
        → Tenants.get_by_id
            (codes "e9")
            (record { value = codes "t" })
            (Tenants.delete 9 (record { value = codes "t" }) cached_tenants).1
          ≡ some u
        → u.is_active ≡ false)
unfolding get cached_tenants
delete-stale_example =
    delete-stale tenant_cache 9 (record { value = codes "t" }) (codes "e9") (codes "h") tenant
      cached_tenants refl

-- The tenant as it is updated, and read from the table then.
abbrev new_plan : Tenant
new_plan = record tenant { plan = TenantPlan.pro }

abbrev updated_tenant : Tenant
updated_tenant = record new_plan {
  entity = record { id = codes "e9"; created_at = 1; updated_at = 9 };
}

abbrev plan_cache : Tenants.TenantCache
plan_cache = record {
  dumps = λ t. t.name;
  loads = λ text. some updated_tenant;
  accepts = λ hash. true;
}

plan_cache-reads :
    (row : Tenants.Row)
    → Tenants.row_by_hash (codes "h") (Tenants.update_rows 9 new_plan cached_tenants.rows)
      ≡ some row
    → plan_cache.loads (plan_cache.dumps (Tenants.row_to_tenant (codes "e9") row))
      ≡ some (Tenants.row_to_tenant (codes "e9") row)
unfolding Tenants.row_by_hash Tenants.update_rows Tenants.row_to_tenant Tenants.row_of
    cached_tenants
plan_cache-reads row e = ap (λ r. some (Tenants.row_to_tenant (codes "e9") r)) (some_inj e)

update-refreshes_example :
    let first =
      Tenants.get_by_api_key_hash plan_cache
        (codes "e9")
        (codes "h")
        (Tenants.update 9 new_plan cached_tenants).1 in
    (first.0
      ≡ Option.map
          (Tenants.row_to_tenant (codes "e9"))
          (Tenants.row_by_hash (codes "h") (Tenants.update_rows 9 new_plan cached_tenants.rows)))
    × (Tenants.get_by_api_key_hash plan_cache (codes "e10") (codes "h") first.1 ≡ first)
update-refreshes_example =
    update-refreshes plan_cache 9 new_plan (codes "e9") (codes "e10") cached_tenants refl
      plan_cache-reads

-- A codec that keeps the text of a user's message.
abbrev codec : Codec
codec = record {
  dumps = λ m. m.content;
  loads = λ t. some (record { role = MessageRole.user; content = t; metadata = [] });
}

abbrev said : Text → ChatMessage
said t = record { role = MessageRole.user; content = t; metadata = [] }
