-- ===== src/Api/Auth.antt =====
-- app/core/security/api_key.py
use ai_backend_api.Base.{ℕ, Bool, Option, none, some, [], ◌∷◌, if◌then◌else◌}
use ai_backend_api.Base.Text.{Text, codes, text_eq}
use ai_backend_api.Base.Result.{Result, ok, err}

-- `HTTPException`
pub record HttpException : Type 0 where
  pub status_code : ℕ
  pub detail : Text

-- `hmac.compare_digest` is equality; UTF-8 is injective.
unfoldable pub verify_api_key : Text → Text → Bool
verify_api_key api_key expected_key = text_eq api_key expected_key

abbrev missing_key : HttpException
missing_key = record {
  status_code = 401;
  detail = codes "Missing API key. Provide X-API-Key header.";
}

-- FastAPI's `APIKeyHeader` hands an empty header on as None.
unfoldable pub get_api_key : Text → Option Text → Result HttpException Text
unfolding verify_api_key
get_api_key expected none = err missing_key
get_api_key expected (some []) = err missing_key
get_api_key expected (some (c ∷ cs)) =
    if verify_api_key (c ∷ cs) expected
    then ok (c ∷ cs)
    else err (record { status_code = 403; detail = codes "Invalid API key." })
