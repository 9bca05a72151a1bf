-- ===== src/Api/Health.antt =====
-- The health check of app/main.py. What the three dependencies answer is a parameter.
use ai_backend_api.Base.{
  ℕ, Bool, true, false, ◌&&◌, [], ◌++◌, if◌then◌else◌, ◌≡◌, ◌↔◌, refl, arith, some,
}
use ai_backend_api.Base.Text.{Text, codes}
use ai_backend_api.Base.Dict.{Dict, get, put}
use ai_backend_api.Base.Result.{Result, ok, err}
use ai_backend_api.Errors.{Exc, message}

pub record HealthAnswer : Type 0 where
  pub http_status : ℕ
  pub status : Text
  pub checks : Dict Text

abbrev pub check_text : Result Exc (Unit {0}) → Text
check_text (ok _) = codes "ok"
check_text (err exc) = codes "error: " ++ message exc

abbrev pub is_ok : Result Exc (Unit {0}) → Bool
is_ok (ok _) = true
is_ok (err _) = false

-- Each check runs whatever the ones before it gave.
unfoldable pub health_check : (redis qdrant postgres : Result Exc (Unit {0})) → HealthAnswer
unfolding put
health_check redis qdrant postgres =
    let healthy = is_ok redis && (is_ok qdrant && is_ok postgres) in
    record {
      http_status = if healthy then 200 else 503;
      status = if healthy then codes "healthy" else codes "degraded";
      checks =
          put (put (put [] (codes "redis") (check_text redis)) (codes "qdrant") (check_text qdrant))
            (codes "postgres") (check_text postgres);
    }

-- The answer is 200 exactly when all three dependencies answer, and 503 otherwise; the report has
-- one entry for each dependency, "ok" or the error of its own check.
pub health_check_iff :
    (redis qdrant postgres : Result Exc (Unit {0}))
    → (((health_check redis qdrant postgres).http_status ≡ 200)
        ↔ ((redis ≡ ok tt) × (qdrant ≡ ok tt) × (postgres ≡ ok tt)))
      × (get (health_check redis qdrant postgres).checks (codes "redis") ≡ some (check_text redis))
      × (get (health_check redis qdrant postgres).checks (codes "qdrant")
          ≡ some (check_text qdrant))
      × (get (health_check redis qdrant postgres).checks (codes "postgres")
          ≡ some (check_text postgres))
unfolding health_check get put
health_check_iff (ok _) (ok _) (ok _) = ((λ h. (refl, refl, refl), λ h. refl), refl, refl, refl)
health_check_iff (err e) q p =
    ((λ h. absurd (omega (arith, h)), λ (h, _, _). absurd (cc)), refl, refl, refl)
health_check_iff (ok _) (err e) p =
    ((λ h. absurd (omega (arith, h)), λ (_, h, _). absurd (cc)), refl, refl, refl)
health_check_iff (ok _) (ok _) (err e) =
    ((λ h. absurd (omega (arith, h)), λ (_, _, h). absurd (cc)), refl, refl, refl)
