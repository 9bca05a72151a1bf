-- ===== src/Errors/Handlers.antt =====
-- app/api/middleware/error_handler.py: which answer an exception gets. Starlette calls the handler
-- of the first class in the exception's method resolution order that has one.
use ai_backend_api.Base.{ℕ, Option, none, some, List, [], ◌∷◌, if◌then◌else◌, ◌++◌}
use ai_backend_api.Base.Text.{Text, codes, show, is_nonempty, join}
use ai_backend_api.Errors.{Exc, Class, mro, message, error_code, error_field}

-- `ErrorResponse` in a `JSONResponse`, with the headers.
pub record ErrorAnswer : Type 0 where
  pub status : ℕ
  pub detail : Text
  pub code : Text
  pub field : Option Text
  pub retry_after : Option Text

-- `_error_response`
unfoldable pub error_response : ℕ → Text → Text → Option Text → ErrorAnswer
error_response status detail code field = record {
  status = status;
  detail = detail;
  code = code;
  field = field;
  retry_after = none;
}

-- A domain exception has a code; elsewhere the handlers below are not called.
abbrev pub code_of : Exc → Text
code_of e = elim (error_code e) [ none ↦ [] | some c ↦ c ]

abbrev pub retry_header : Exc → Option Text
retry_header (Exc.llm_rate_limit (some s)) = some (show s)
retry_header _ = none

-- The registered handler of a class, if it has one.
unfoldable pub handler : Class → Option (Exc → ErrorAnswer)
unfolding error_response
handler Class.entity_not_found_class = some (λ e. error_response 404 (message e) (code_of e) none)
handler Class.validation_class =
    some (λ e. error_response 422 (message e) (code_of e) (error_field e))
handler Class.business_rule_class = some (λ e. error_response 409 (message e) (code_of e) none)
handler Class.rate_limit_class =
    some (λ e. record (error_response 429 (message e) (code_of e) none) {
      retry_after = retry_header e;
    })
handler Class.connection_class = some (λ e. error_response 502 (message e) (code_of e) none)
handler Class.token_limit_class = some (λ e. error_response 413 (message e) (code_of e) none)
handler Class.domain_class = some (λ e. error_response 400 (message e) (code_of e) none)
handler Class.exception_class =
    some (λ e. error_response 500 (codes "Internal server error") (codes "INTERNAL_ERROR") none)
handler _ = none

unfoldable pub dispatch : List Class → Exc → Option ErrorAnswer
unfolding handler
dispatch [] e = none
dispatch (c ∷ cs) e =
    let rest = dispatch cs e in elim (handler c) [ none ↦ rest | some h ↦ some (h e) ]

-- The answer to an exception that a route raises.
unfoldable pub answer : Exc → Option ErrorAnswer
unfolding dispatch mro
answer e = dispatch (mro e) e

-- `RequestValidationError`: its first error's location, joined by arrows, and message.
unfoldable pub request_validation_handler : List (List Text × Text) → ErrorAnswer
unfolding error_response
request_validation_handler [] =
    error_response 422 (codes "Validation error") (codes "VALIDATION_ERROR") (some [])
request_validation_handler ((loc, msg) ∷ errors) =
    let field = join (codes " → ") loc in
    error_response 422 (if is_nonempty field then field ++ (codes ": " ++ msg) else msg)
      (codes "VALIDATION_ERROR") (some field)
