-- ===== src/Repository/Tenants/Cache.antt =====
-- What an update and a deletion leave in the cached lookups of the tenants.
use ai_backend_api.Base.{
  ℕ, true, false, ◌∙◌, Option, none, some, List, [], ◌∷◌, ◌≡◌, refl, sym, ap, Bool-cases, some_inj,
  inl, inr,
}
use mathlib.Core.Option
use ai_backend_api.Base.Text.{Text, text_eq, text_eq_iff}
use ai_backend_api.Base.Dict.{get, put, remove, get-put, get-remove}
use ai_backend_api.Entity.Values.{TenantId}
use ai_backend_api.Entity.Tenant.{Tenant}
use ai_backend_api.Repository.Tenants.{
  Row, Store, TenantCache, read_cached, row_by_id, row_to_tenant, get_by_id, get_by_api_key_hash,
  row_by_hash, write_back, update, update_rows, delete, deactivate_rows, deactivated_row,
}

deactivated-row_by_id :
    (now : ℕ) (fresh id : Text) (rows : List Row) (t : Tenant)
    → Option.map (row_to_tenant fresh) (row_by_id id (deactivate_rows now id rows)) ≡ some t
    → t.is_active ≡ false
unfolding row_by_id deactivate_rows row_to_tenant
deactivated-row_by_id now fresh id [] t h = absurd (cc)
deactivated-row_by_id now fresh id (row ∷ rows) t h = elim (Bool-cases (text_eq row.tenant_id id)) [
  | inl same ↦
      let found : some (row_to_tenant fresh (deactivated_row now row)) ≡ some t =
        rw (same, same) at h in
      sym (ap (λ u. u.is_active) (some_inj found))
  | inr different ↦ deactivated-row_by_id now fresh id rows t (rw (different, different) at h)
]

-- A tenant whose lookup is cached is still answered, as it was cached, after the deletion that makes
-- its row inactive.
pub delete-stale :
    (library : TenantCache) (now : ℕ) (id : TenantId) (fresh hash : Text) (t : Tenant) (s : Store)
    → read_cached library (get s.cache hash) ≡ some t
    → ((get_by_api_key_hash library fresh hash (delete now id s).1).0 ≡ some t)
      × ((u : Tenant) → get_by_id fresh id (delete now id s).1 ≡ some u → u.is_active ≡ false)
unfolding get_by_api_key_hash delete get_by_id
delete-stale library now id fresh hash t s cached =
    (rw cached refl, λ u h. deactivated-row_by_id now fresh id.value s.rows u h)

module _ (library : TenantCache) (fresh later hash : Text) where
  first_lookup :
      (s : Store)
      → get s.cache hash ≡ none
      → get_by_api_key_hash library fresh hash s
        ≡ write_back library fresh hash (row_by_hash hash s.rows) s
  unfolding get_by_api_key_hash
  first_lookup s e = rw e refl

  write_back-answer :
      (o : Option Row) (s : Store)
      → (write_back library fresh hash o s).0 ≡ Option.map (row_to_tenant fresh) o
  unfolding write_back
  write_back-answer none s = refl
  write_back-answer (some row) s = refl

  -- The lookup after one that has written what it found.
  second_lookup :
      (o : Option Row) (s : Store)
      → library.accepts hash ≡ true
      → ((row : Row)
          → o ≡ some row
          → library.loads (library.dumps (row_to_tenant fresh row))
            ≡ some (row_to_tenant fresh row))
      → get s.cache hash ≡ none
      → row_by_hash hash s.rows ≡ o
      → get_by_api_key_hash library later hash (write_back library fresh hash o s).1
        ≡ write_back library fresh hash o s
  unfolding get_by_api_key_hash
  second_lookup none s accepted codec e r = rw (e, r) refl
  second_lookup (some row) s accepted codec e r =
      let text = library.dumps (row_to_tenant fresh row) in
      let found : get (put s.cache hash text) hash ≡ some text =
        get-put s.cache hash text hash ∙ (rw ((text_eq_iff hash hash).1 refl) refl) in
      rw (accepted, found, codec row refl) refl

-- If Redis takes the write for the hash and the tenant that is written is read back as it was:
-- after an update of a tenant, a lookup by its hash answers what the table then has, with a new
-- identifier of the entity, and the next lookup answers the same tenant, that identifier included,
-- and changes nothing.
pub update-refreshes :
    (library : TenantCache) (now : ℕ) (tenant : Tenant) (fresh later : Text) (s : Store)
    → library.accepts tenant.api_key_hash ≡ true
    → ((row : Row)
        → row_by_hash tenant.api_key_hash (update_rows now tenant s.rows) ≡ some row
        → library.loads (library.dumps (row_to_tenant fresh row)) ≡ some (row_to_tenant fresh row))
    → let first = get_by_api_key_hash library fresh tenant.api_key_hash (update now tenant s).1 in
      (first.0
        ≡ Option.map
            (row_to_tenant fresh)
            (row_by_hash tenant.api_key_hash (update_rows now tenant s.rows)))
      × (get_by_api_key_hash library later tenant.api_key_hash first.1 ≡ first)
unfolding update
update-refreshes library now tenant fresh later s accepted codec =
    let hash = tenant.api_key_hash in
    let after : Store = record {
      rows = update_rows now tenant s.rows;
      cache = remove s.cache hash;
    } in
    let gone : get after.cache hash ≡ none =
      get-remove s.cache hash hash ∙ (rw ((text_eq_iff hash hash).1 refl) refl) in
    let row = row_by_hash hash after.rows in
    let first = first_lookup library fresh later hash after gone in
    (
      ap (λ r. r.0) first ∙ write_back-answer library fresh later hash row after,
      ap (λ r. get_by_api_key_hash library later hash r.1) first
          ∙ (second_lookup library fresh later hash row after accepted codec gone refl ∙ sym first),
    )
