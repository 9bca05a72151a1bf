-- ===== src/Entity/Tenant.antt =====
-- app/domain/entities/tenant.py. SHA-256 (`hash_api_key`) and the random key are arguments.
pub mod Keys
use ai_backend_api.Base.{ℕ, ◌+◌, Bool, true, false, ◌&&◌, ltb}
use ai_backend_api.Base.Text.{Text, codes, text_eq}
use ai_backend_api.Base.Dict.{Dict}
use ai_backend_api.Entity.Values.{TenantId, Value}
use ai_backend_api.Entity.Identity.{Entity, update}
use mathlib.Core.List.{[], ◌++◌}

pub data TenantPlan : Type 0 where
  free starter pro enterprise : TenantPlan

-- `_PLAN_QUOTAS`
abbrev pub plan_quota : TenantPlan → ℕ
plan_quota TenantPlan.free = 100_000
plan_quota TenantPlan.starter = 1_000_000
plan_quota TenantPlan.pro = 10_000_000
plan_quota TenantPlan.enterprise = 1_000_000_000

pub record Tenant : Type 0 where
  pub entity : Entity
  pub tenant_id : TenantId
  pub name : Text
  pub api_key_hash : Text
  pub plan : TenantPlan
  pub is_active : Bool
  pub tokens_used_this_month : ℕ
  pub total_tokens_used : ℕ
  pub metadata : Dict Value

-- `secrets.token_hex(32)` is an argument.
unfoldable pub generate_api_key : Text → Text
generate_api_key token_hex = codes "sk-" ++ token_hex

-- `create`: the new tenant and the plain key, of which only the hash is stored.
unfoldable pub create : (Text → Text) → Text → Entity → TenantId → Text → TenantPlan → Tenant × Text
unfolding generate_api_key
create hash_api_key token_hex entity tenant_id name plan =
    let raw_key = generate_api_key token_hex in
    (
      record {
        entity = entity;
        tenant_id = tenant_id;
        name = name;
        api_key_hash = hash_api_key raw_key;
        plan = plan;
        is_active = true;
        tokens_used_this_month = 0;
        total_tokens_used = 0;
        metadata = [];
      },
      raw_key,
    )

unfoldable pub token_quota : Tenant → ℕ
token_quota t = plan_quota t.plan

unfoldable pub can_accept_request : Tenant → Bool
unfolding token_quota
can_accept_request t = t.is_active && ltb t.tokens_used_this_month (token_quota t)

unfoldable pub deduct_quota : ℕ → ℕ → Tenant → Tenant
unfolding update
deduct_quota now tokens t = record t {
  tokens_used_this_month = t.tokens_used_this_month + tokens;
  total_tokens_used = t.total_tokens_used + tokens;
  entity = update now t.entity;
}

unfoldable pub reset_monthly_quota : ℕ → Tenant → Tenant
unfolding update
reset_monthly_quota now t = record t { tokens_used_this_month = 0; entity = update now t.entity }

unfoldable pub verify_api_key : (Text → Text) → Text → Tenant → Bool
verify_api_key hash_api_key raw_key t = text_eq t.api_key_hash (hash_api_key raw_key)

unfoldable pub deactivate : ℕ → Tenant → Tenant
unfolding update
deactivate now t = record t { is_active = false; entity = update now t.entity }
