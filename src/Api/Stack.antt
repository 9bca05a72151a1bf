-- ===== src/Api/Stack.antt =====
-- The middleware stack of app/main.py: Starlette runs the middleware that was added last first, so
-- request logging is around the rate limiter.
use ai_backend_api.Base.{
  ℕ, ◌≤◌, ◌<◌, ◌≡◌, refl, ap, ◌∙◌, true, false, none, List, [], ◌∷◌, ◌++◌, some, append_assoc,
  le→not-ltb, if◌then◌else◌,
}
use ai_backend_api.Base.Dict.{put, get, get-put}
use ai_backend_api.Base.Text.{Text, codes}
use ai_backend_api.Base.Result.{Result, ok}
use ai_backend_api.Exec.{Exec, ◌>>=◌, continue}
use ai_backend_api.Errors.{Exc}
use ai_backend_api.Api.{Request, Response}
use ai_backend_api.Api.Limit.{
  is_health, limit_key, too_many, proceed, rate_limit_middleware, rate_limit_middleware-window,
  with_limits,
}
use ai_backend_api.Api.Logging.{
  Line, Logs, log, logged, request_logging_middleware, started, completed, status_of,
  bind_request_context, clear_request_context, with_request_id, context_of,
}
use ai_backend_api.Api.Logging.Trace.{start_line, end_line}
use ai_backend_api.RateLimit.{Redis, IsRedis, is_allowed, get_remaining}
use ai_backend_api.RateLimit.Window.{Reach, in_window, is_allowed-window}

-- A part of the application whose own log lines are left out.
unfoldable pub unlogged :
    {S : Type 0} → (Request → Exec S Response) → Request → Exec (Logs × S) Response
unlogged call_next request (logs, s) = let (r, s') = call_next request s in (r, (logs, s'))

module _ (redis : Redis) (limit : ℕ) (route : Request → Exec redis.State Response) where
  -- The lines that the limiter writes: on a failure of Redis, and on a refusal.
  unfoldable pub limiter_log : (now draw : ℕ) → Request → redis.State → Logs → Logs
  unfolding log is_allowed
  limiter_log now draw request s logs =
      if is_health request
      then logs
      else if redis.available s
      then (if (is_allowed redis limit (limit_key request) now draw s).0
          then logs
          else log (codes "rate_limit_exceeded") none logs)
      else log (codes "rate_limiter_lua_error") none logs

  -- The rate limiter with its lines, in front of the routes.
  unfoldable pub limited : (now draw later : ℕ) → Request → Exec (Logs × redis.State) Response
  unfolding rate_limit_middleware limiter_log
  limited now draw later request (logs, s) =
      let (r, s') = rate_limit_middleware redis limit route now draw later request s in
      (r, (limiter_log now draw request s logs, s'))

  -- The application: the routes behind both middlewares.
  unfoldable pub application :
      (request_id : Text) (now draw later : ℕ) → Request → Exec (Logs × redis.State) Response
  unfolding request_logging_middleware limited
  application request_id now draw later =
      request_logging_middleware (limited now draw later) request_id

proceed_lem :
    (redis : Redis) (limit : ℕ) (route : Request → Exec redis.State Response) (later : ℕ)
    (request : Request) (s s' : redis.State) (response : Response)
    → route request s ≡ (ok response, s')
    → proceed redis limit route later request s ≡ (
      ok (with_limits (get_remaining redis limit (limit_key request) later s').0 limit response),
      (get_remaining redis limit (limit_key request) later s').1,
    )
unfolding proceed ◌>>=◌
proceed_lem redis limit route later request s s' response found =
    ap
      (λ x.
        continue x.0
          (λ answer t.
            let (remaining, t') = get_remaining redis limit (limit_key request) later t in
            (ok (with_limits remaining limit answer), t'))
          x.1)
      found

-- A request that is logged, with the answer and the lines of what is behind the logging.
logged_lem :
    {S : Type 0} (call_next : Request → Exec (Logs × S) Response) (request_id : Text)
    (request : Request) (logs after : Logs) (s s1 : S) (r : Result Exc Response)
    → is_health request ≡ false
    → call_next request (started request_id request logs, s) ≡ (r, (after, s1))
    → request_logging_middleware call_next request_id request (logs, s)
      ≡ (with_request_id request_id r, (completed (status_of r) after, s1))
unfolding request_logging_middleware logged
logged_lem call_next request_id request logs after s s1 r other answered =
    ap
      (λ b.
        if b then call_next request (logs, s) else logged call_next request_id request (logs, s))
      other
    ∙ ap (λ x. (with_request_id request_id x.0, (completed (status_of x.0) x.1.0, x.1.1))) answered

-- The limiter's line on a request that it refuses.
abbrev pub refusal_line : Text → Request → Line
refusal_line request_id request = record {
  event = codes "rate_limit_exceeded";
  context = some (context_of request_id request);
  status_code = none;
}

refused_lines :
    (request_id : Text) (request : Request) (logs : Logs) (status_code : ℕ)
    → completed status_code
        (log (codes "rate_limit_exceeded") none (started request_id request logs))
      ≡ record {
        bound = none;
        lines =
            logs.lines
            ++ (start_line request_id request
                ∷ refusal_line request_id request
                ∷ end_line request_id request status_code
                ∷ []);
      }
unfolding started completed log bind_request_context clear_request_context
refused_lines request_id request logs status_code =
    ap (λ (l : List Line). record { bound = none; lines = l })
      (append_assoc (logs.lines ++ (start_line request_id request ∷ []))
          (refusal_line request_id request ∷ []) (end_line request_id request status_code ∷ [])
        ∙ append_assoc logs.lines (start_line request_id request ∷ []) _)

module _ (redis : Redis) (laws : IsRedis redis) (limit : ℕ)
    (route : Request → Exec redis.State Response) (request_id : Text) (now draw later : ℕ)
    (request : Request) (logs : Logs) (s : redis.State) (window : List ℕ) (clock : ℕ)
    (reach : Reach redis laws limit (limit_key request) s window clock) (later_on : clock ≤ now)
    (up : redis.available s ≡ true) where
  -- In a state that calls for the request's key reach while Redis answers. A request to /health
  -- comes to the routes and nothing is logged or counted. A request to another path that finds the
  -- window full is answered 429 with its identifier and no route sees it: what is left of it are
  -- the two lines of the logging with the limiter's own between them, each with the request's
  -- context, and what the limiter does. One that finds room gets from its route the status and the
  -- content, with its identifier added.
  pub application-limits :
      (is_health request ≡ true
        → application redis limit route request_id now draw later request (logs, s)
          ≡ unlogged route request (logs, s))
      × (is_health request ≡ false
          → limit ≤ in_window now window
          → application redis limit route request_id now draw later request (logs, s) ≡ (
            ok (record too_many {
              headers = put too_many.headers (codes "X-Request-ID") request_id;
            }),
            (
              record {
                bound = none;
                lines =
                    logs.lines
                    ++ (start_line request_id request
                        ∷ refusal_line request_id request
                        ∷ end_line request_id request 429
                        ∷ []);
              },
              (is_allowed redis limit (limit_key request) now draw s).1,
            ),
          ))
      × (is_health request ≡ false
          → in_window now window < limit
          → (response : Response) (s' : redis.State)
          → route request (is_allowed redis limit (limit_key request) now draw s).1
            ≡ (ok response, s')
          → (answer : Response) × ((application redis limit route request_id now draw later request
                (logs, s)).0
              ≡ ok answer)
            × (answer.status_code ≡ response.status_code)
            × (answer.content ≡ response.content)
            × (get answer.headers (codes "X-Request-ID") ≡ some request_id))
  unfolding application request_logging_middleware unlogged limited limiter_log too_many
  application-limits =
      let (health, full, room) =
        rate_limit_middleware-window redis laws limit route now draw later request s window clock
          reach later_on up in
      let allowed =
        (is_allowed-window redis laws limit (limit_key request) now draw reach later_on up).0 in
      let front = limited redis limit route now draw later in
      let s0 = (is_allowed redis limit (limit_key request) now draw s).1 in
      let logs0 = started request_id request logs in
      (
        λ h. rw h refl,
        λ h k.
            logged_lem front request_id request logs (log (codes "rate_limit_exceeded") none logs0)
              s s0 (ok too_many) h
              (rw (full h k, h, allowed, le→not-ltb (in_window now window) limit k, up) refl)
            ∙ ap (λ l. (with_request_id request_id (ok too_many), (l, s0)))
                (refused_lines request_id request logs 429),
        λ h k response s' found.
            let passed =
              room h k ∙ proceed_lem redis limit route later request s0 s' response found in
            (
              _,
              ap (λ x. x.0)
                  (logged_lem front request_id request logs
                    (limiter_log redis limit route now draw request s logs0) s _ _ h
                    (ap (λ x. (x.0, (limiter_log redis limit route now draw request s logs0, x.1)))
                      passed)),
              refl,
              refl,
              get-put
                  (with_limits (get_remaining redis limit (limit_key request) later s').0 limit
                    response).headers
                  (codes "X-Request-ID") request_id (codes "X-Request-ID"),
            ),
      )
