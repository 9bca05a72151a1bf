-- ===== src/Repository/Tenants.antt =====
-- app/infrastructure/repositories/postgres_tenant_repo.py: the table of the tenants and the cached
-- lookups by the hash of a key. The SQL statements are operations on the rows; PostgreSQL answers,
-- and so does Redis when it is read; the reading and writing of cached texts, and whether Redis
-- takes a write, are a parameter.
pub mod Cache
use ai_backend_api.Base.{
  ℕ, Bool, true, false, Option, none, some, List, [], ◌∷◌, ◌++◌, if◌then◌else◌,
}
use ai_backend_api.Base.Text.{Text, text_eq}
use ai_backend_api.Base.Dict.{Dict, get, put, remove}
use ai_backend_api.Entity.Values.{TenantId, Value}
use ai_backend_api.Entity.Tenant.{Tenant, TenantPlan}
use mathlib.Core.Option

-- A row of `tenants`; the plan and the metadata are read from their texts.
pub record Row : Type 0 where
  pub tenant_id : Text
  pub name : Text
  pub api_key_hash : Text
  pub plan : TenantPlan
  pub is_active : Bool
  pub tokens_used_this_month : ℕ
  pub total_tokens_used : ℕ
  pub metadata : Dict Value
  pub created_at : ℕ
  pub updated_at : ℕ

-- The rows, and the cached texts under the hashes (the keys less their prefix).
pub record Store : Type 0 where
  pub rows : List Row
  pub cache : Dict Text

pub record TenantCache : Type 0 where
  -- The text of `tenant.model_dump(mode="json")`
  pub dumps : Tenant → Text
  -- `Tenant(**cached)`; None for an entry that is empty or corrupt
  pub loads : Text → Option Tenant
  -- Whether Redis takes the write for a hash.
  pub accepts : Text → Bool

-- `_row_to_tenant`, with the identifier that `uuid4()` gives the entity.
unfoldable pub row_to_tenant : Text → Row → Tenant
row_to_tenant fresh row = record {
  entity = record { id = fresh; created_at = row.created_at; updated_at = row.updated_at };
  tenant_id = record { value = row.tenant_id };
  name = row.name;
  api_key_hash = row.api_key_hash;
  plan = row.plan;
  is_active = row.is_active;
  tokens_used_this_month = row.tokens_used_this_month;
  total_tokens_used = row.total_tokens_used;
  metadata = row.metadata;
}

-- The values of the INSERT.
unfoldable pub row_of : Tenant → Row
row_of t = record {
  tenant_id = t.tenant_id.value;
  name = t.name;
  api_key_hash = t.api_key_hash;
  plan = t.plan;
  is_active = t.is_active;
  tokens_used_this_month = t.tokens_used_this_month;
  total_tokens_used = t.total_tokens_used;
  metadata = t.metadata;
  created_at = t.entity.created_at;
  updated_at = t.entity.updated_at;
}

-- SELECT * FROM tenants WHERE tenant_id = $1
unfoldable pub row_by_id : Text → List Row → Option Row
row_by_id id [] = none
row_by_id id (t ∷ ts) =
    let rest = row_by_id id ts in if text_eq t.tenant_id id then some t else rest

-- SELECT * FROM tenants WHERE api_key_hash = $1
unfoldable pub row_by_hash : Text → List Row → Option Row
row_by_hash hash [] = none
row_by_hash hash (t ∷ ts) =
    let rest = row_by_hash hash ts in if text_eq t.api_key_hash hash then some t else rest

unfoldable pub get_by_id : (fresh : Text) → TenantId → Store → Option Tenant
unfolding row_by_id row_to_tenant
get_by_id fresh tenant_id s = Option.map (row_to_tenant fresh) (row_by_id tenant_id.value s.rows)

module _ (library : TenantCache) where
  -- The cached lookup, if there is one that can be read.
  abbrev pub read_cached : Option Text → Option Tenant
  read_cached none = none
  read_cached (some cached) = library.loads cached

  -- What follows the lookup in the table: a row found is written to the cache, and a failure of that
  -- write is dropped.
  abbrev pub write_back : Text → Text → Option Row → Store → Option Tenant × Store
  unfolding row_to_tenant
  write_back fresh hash none s = (none, s)
  write_back fresh hash (some row) s =
      let tenant = row_to_tenant fresh row in
      (
        some tenant,
        record {
          rows = s.rows;
          cache = if library.accepts hash then put s.cache hash (library.dumps tenant) else s.cache;
        },
      )

  abbrev pub from_cache : Text → Text → Option Tenant → Store → Option Tenant × Store
  unfolding row_by_hash
  from_cache fresh hash (some t) s = (some t, s)
  from_cache fresh hash none s = write_back fresh hash (row_by_hash hash s.rows) s

  unfoldable pub get_by_api_key_hash : (fresh hash : Text) → Store → Option Tenant × Store
  unfolding row_by_hash row_to_tenant
  get_by_api_key_hash fresh hash s = from_cache fresh hash (read_cached (get s.cache hash)) s

abbrev pub insert_row : Option Row → Row → List Row → List Row
insert_row none row rows = rows ++ (row ∷ [])
insert_row (some old) row rows = rows

-- INSERT … ON CONFLICT (tenant_id) DO NOTHING
unfoldable pub save : Tenant → Store → Tenant × Store
unfolding row_by_id row_of
save tenant s = (
  tenant,
  record {
    rows = insert_row (row_by_id tenant.tenant_id.value s.rows) (row_of tenant) s.rows;
    cache = s.cache;
  },
)

-- The columns that UPDATE sets.
abbrev pub updated_row : ℕ → Tenant → Row → Row
updated_row now tenant row = record row {
  is_active = tenant.is_active;
  plan = tenant.plan;
  tokens_used_this_month = tenant.tokens_used_this_month;
  total_tokens_used = tenant.total_tokens_used;
  metadata = tenant.metadata;
  updated_at = now;
}

unfoldable pub update_rows : ℕ → Tenant → List Row → List Row
update_rows now tenant [] = []
update_rows now tenant (row ∷ rows) =
    (if text_eq row.tenant_id tenant.tenant_id.value then updated_row now tenant row else row)
    ∷ update_rows now tenant rows

-- UPDATE tenants SET …, and the invalidation of the cached lookup.
unfoldable pub update : ℕ → Tenant → Store → Tenant × Store
unfolding update_rows
update now tenant s = (
  tenant,
  record { rows = update_rows now tenant s.rows; cache = remove s.cache tenant.api_key_hash },
)

abbrev pub deactivated_row : ℕ → Row → Row
deactivated_row now row = record row { is_active = false; updated_at = now }

unfoldable pub deactivate_rows : ℕ → Text → List Row → List Row
deactivate_rows now id [] = []
deactivate_rows now id (row ∷ rows) =
    (if text_eq row.tenant_id id then deactivated_row now row else row)
    ∷ deactivate_rows now id rows

abbrev pub is_found : Option Row → Bool
is_found none = false
is_found (some t) = true

-- UPDATE tenants SET is_active = FALSE; the identifier is the primary key, so one row changes or
-- none.
unfoldable pub delete : ℕ → TenantId → Store → Bool × Store
unfolding deactivate_rows row_by_id
delete now tenant_id s = (
  is_found (row_by_id tenant_id.value s.rows),
  record { rows = deactivate_rows now tenant_id.value s.rows; cache = s.cache },
)
