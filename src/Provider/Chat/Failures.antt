-- ===== src/Provider/Chat/Failures.antt =====
-- How failures of the OpenAI API are answered.
use ai_backend_api.Base.{ℕ, ◌≡◌, Option, none, some, ◌++◌, if◌then◌else◌}
use ai_backend_api.Base.Text.{Text, codes}
use ai_backend_api.Base.Result.{Result, ok, err}
use ai_backend_api.Errors.{Exc, error_code, message}
use ai_backend_api.Errors.Handlers.{answer}
use ai_backend_api.Provider.Chat.{ApiFailure, is_token_limit}

-- The status of the answer to a request that raised.
abbrev pub status_of : Option Exc → Option ℕ
unfolding answer
status_of none = none
status_of (some e) = elim (answer e) [ none ↦ none | some a ↦ some a.status ]

abbrev pub exception_of : {A : Type 0} → Result Exc A → Option Exc
exception_of (ok a) = none
exception_of (err e) = some e

-- What the failures of a completion lead to.
abbrev pub complete_status : ApiFailure → ℕ
unfolding is_token_limit
complete_status (ApiFailure.rate_limited header) = 500
complete_status (ApiFailure.connection_failed text) = 502
complete_status (ApiFailure.bad_request text) = if is_token_limit text then 413 else 400
complete_status (ApiFailure.other_error text) = 400

-- The exception that ends a stream which fails to open: its code, and its text where it has a code.
-- The event stream has been answered 200 before, so no status follows.
abbrev pub stream_code : ApiFailure → Option Text
stream_code (ApiFailure.rate_limited header) = none
stream_code (ApiFailure.connection_failed text) = some (codes "LLM_CONNECTION_ERROR")
stream_code _ = some (codes "LLM_ERROR")

abbrev pub stream_text : ApiFailure → Text
stream_text (ApiFailure.rate_limited header) =
    codes "LLMRateLimitException.__init__() got an unexpected keyword argument 'provider'"
stream_text (ApiFailure.connection_failed text) = codes "LLM connection failed: " ++ text
stream_text (ApiFailure.bad_request text) = codes "OpenAI stream failed: " ++ text
stream_text (ApiFailure.other_error text) = codes "OpenAI stream failed: " ++ text

abbrev pub EndsIn : ApiFailure → Option Exc → Type 0
EndsIn failure none = ⊥
EndsIn failure (some e) = (error_code e ≡ stream_code failure) × (message e ≡ stream_text failure)
