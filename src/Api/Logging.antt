-- ===== src/Api/Logging.antt =====
-- app/api/middleware/request_logging.py and app/core/logging/context.py. The context variables of
-- structlog belong to one request's task, and every log line carries them; durations are left
-- out. The identifier that `uuid4()` draws is an argument.
pub mod Trace
use ai_backend_api.Base.{ℕ, Bool, Option, none, some, List, [], ◌∷◌, ◌++◌, if◌then◌else◌}
use ai_backend_api.Base.Text.{Text, codes}
use ai_backend_api.Base.Dict.{put}
use ai_backend_api.Base.Result.{Result, ok, err}
use ai_backend_api.Errors.{Exc}
use ai_backend_api.Exec.{Exec}
use ai_backend_api.Api.{Request, Response}
use ai_backend_api.Api.Limit.{is_health}

pub record RequestContext : Type 0 where
  pub request_id : Text
  pub method : Text
  pub path : Text
  pub user_id : Option Text
  pub client_ip : Option Text

pub record Line : Type 0 where
  pub event : Text
  pub context : Option RequestContext
  pub status_code : Option ℕ

-- The bound context and the lines so far.
pub record Logs : Type 0 where
  pub bound : Option RequestContext
  pub lines : List Line

-- `logger.ainfo`
unfoldable pub log : Text → Option ℕ → Logs → Logs
log event status_code logs = record logs {
  lines =
      logs.lines
      ++ (record { event = event; context = logs.bound; status_code = status_code } ∷ []);
}

unfoldable pub bind_request_context : RequestContext → Logs → Logs
bind_request_context context logs = record logs { bound = some context }

unfoldable pub clear_request_context : Logs → Logs
clear_request_context logs = record logs { bound = none }

unfoldable pub context_of : Text → Request → RequestContext
context_of request_id request = record {
  request_id = request_id;
  method = request.method;
  path = request.path;
  user_id = none;
  client_ip = request.client_host;
}

-- `response.status_code if "response" in dir() else 500`
abbrev pub status_of : Result Exc Response → ℕ
status_of (ok response) = response.status_code
status_of (err e) = 500

abbrev pub with_request_id : Text → Result Exc Response → Result Exc Response
with_request_id request_id (ok response) =
    ok (record response { headers = put response.headers (codes "X-Request-ID") request_id })
with_request_id request_id (err e) = err e

-- Before the request is passed on.
unfoldable pub started : Text → Request → Logs → Logs
unfolding log bind_request_context context_of
started request_id request logs =
    log (codes "request_started") none (bind_request_context (context_of request_id request) logs)

-- The `finally` block.
unfoldable pub completed : ℕ → Logs → Logs
unfolding log clear_request_context
completed status_code logs =
    clear_request_context (log (codes "request_completed") (some status_code) logs)

module _ {S : Type 0} (call_next : Request → Exec (Logs × S) Response) where
  unfoldable pub logged : Text → Request → Exec (Logs × S) Response
  unfolding started completed
  logged request_id request (logs, s) =
      let (r, (logs', s')) = call_next request (started request_id request logs, s) in
      (with_request_id request_id r, (completed (status_of r) logs', s'))

  unfoldable pub request_logging_middleware : Text → Request → Exec (Logs × S) Response
  unfolding is_health logged
  request_logging_middleware request_id request s =
      if is_health request then call_next request s else logged request_id request s
