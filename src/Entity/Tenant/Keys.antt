-- ===== src/Entity/Tenant/Keys.antt =====
-- Which keys are verified as a tenant's.
use ai_backend_api.Base.{◌≡◌, refl, true, ◌↔◌}
use ai_backend_api.Base.Text.{Text, text_eq_iff}
use ai_backend_api.Entity.Values.{TenantId}
use ai_backend_api.Entity.Identity.{Entity}
use ai_backend_api.Entity.Tenant.{TenantPlan, create, verify_api_key, generate_api_key}

-- A new tenant is verified by its own key, and by another exactly if the two have one hash.
pub verify-create :
    (hash : Text → Text) (token other : Text) (entity : Entity) (id : TenantId) (name : Text)
    (plan : TenantPlan)
    → (verify_api_key hash
          (create hash token entity id name plan).1
          (create hash token entity id name plan).0
        ≡ true)
      × ((verify_api_key hash other (create hash token entity id name plan).0 ≡ true)
          ↔ (hash (create hash token entity id name plan).1 ≡ hash other))
unfolding verify_api_key create
verify-create hash token other entity id name plan =
    let key = hash (generate_api_key token) in
    ((text_eq_iff key key).1 refl, text_eq_iff key (hash other))
