-- ===== src/Tests/Web.antt =====
-- Examples on the HTTP layer and the rate limiter.
use ai_backend_api.Base.{
  ℕ, Option, ◌+◌, ◌*◌, ◌∙◌, ◌⊎◌, leb, sym, some_inj, inl, inr, Bool-cases, if◌then◌else◌, ◌≤◌, ◌<◌,
  ◌≡◌, refl, Bool, true, false, none, some, List, [], ◌∷◌, arith, filter_by, length,
}
use ai_backend_api.Base.Text.{Text, codes}
use ai_backend_api.Base.Int.{pos, ltb_ℤ}
use ai_backend_api.Base.Result.{ok}
use ai_backend_api.Errors.Handlers.{answer}
use ai_backend_api.Exec.{Exec}
use ai_backend_api.RateLimit.{Redis, IsRedis, Member, is_allowed, entry_name, rate_limit_lua}
use ai_backend_api.RateLimit.Window.{Reach, in_window}
use ai_backend_api.Api.{Request, Response}
use ai_backend_api.Api.Stack.{application, unlogged, refusal_line, application-limits}
use ai_backend_api.Base.Dict.{put, get}
use ai_backend_api.Api.Logging.{Logs, log}
use ai_backend_api.Api.Logging.Trace.{
  IsQuiet, AreIdentified, is_request_line, start_line, end_line, lines_of, no_logs, serve,
  serve-IsTraced,
}
use ai_backend_api.Api.Limit.{rate_limit_middleware, is_health, limit_key, too_many}

-- A Redis of one sorted set, whatever the key, which answers while the flag is set, with its clock
-- and the deadline of the set.
abbrev pub World : Type 0
World = List Member × Bool × ℕ × Option ℕ

-- The set of a server whose clock comes to `t`.
abbrev pub expired : ℕ → World → Option ℕ → World
expired t (ms, up, time, deadline) none = (ms, up, t, none)
expired t (ms, up, time, deadline) (some d) =
    if leb d t then ([], up, t, none) else (ms, up, t, some d)

abbrev pub redis : Redis
redis = record {
  State = World;
  available = λ s. s.1;
  zremrangebyscore = λ key bound s. (filter_by (λ m. ltb_ℤ bound (pos m.0)) s.0, s.1, s.2, s.3);
  zcard = λ key s. length s.0;
  zadd = λ key score m s. ((score, m) ∷ s.0, s.1, s.2, s.3);
  expire = λ key seconds s.
      if leb 1 seconds then (s.0, s.1, s.2, some (s.2 + 1000 * seconds)) else ([], s.1, s.2, none);
  delete = λ key s. ([], s.1, s.2, none);
  pass = λ t s. expired t s s.3;
}

pub expire-members :
    (seconds : ℕ) (s : World) → 1 ≤ seconds → (redis.expire (codes "k") seconds s).0 ≡ s.0
expire-members seconds s h = let e : leb 1 seconds ≡ true = ground (arith, h) in rw e refl

pub expire-deadline :
    (seconds : ℕ) (s : World) (d : ℕ)
    → 1 ≤ seconds
    → (redis.expire (codes "k") seconds s).3 ≡ some d
    → d ≡ s.2 + 1000 * seconds
expire-deadline seconds s d h e =
    let positive : leb 1 seconds ≡ true = ground (arith, h) in sym (some_inj (rw positive at e))

pub expired-deadline :
    (t : ℕ) (s : World) (o : Option ℕ) (d : ℕ) → s.3 ≡ o → (expired t s o).3 ≡ some d → s.3 ≡ some d
expired-deadline t s none d e h = absurd (cc)
expired-deadline t s (some d') d e h = elim (Bool-cases (leb d' t)) [
  | inl due ↦ absurd (let n : none ≡ some d = rw due at h in cc)
  | inr early ↦ e ∙ (rw early at h)
]

pub expired-members :
    (t : ℕ) (s : World) (o : Option ℕ)
    → s.3 ≡ o
    → ((expired t s o).0 ≡ s.0) ⊎ (((expired t s o).0 ≡ []) × ((d : ℕ) × (s.3 ≡ some d) × (d ≤ t)))
expired-members t s none e = inl refl
expired-members t s (some d) e = elim (Bool-cases (leb d t)) [
  | inl due ↦ rw due (inr (refl, (d, e, ground (arith, due))))
  | inr early ↦ rw early (inl refl)
]

abbrev pub redis-IsRedis : IsRedis redis
redis-IsRedis = record {
  members = λ key s. s.0;
  members-zremrangebyscore = λ key bound s. refl;
  zcard-members = λ key s. refl;
  members-zadd = λ key score m s h. refl;
  members-expire = λ key seconds s positive. expire-members seconds s positive;
  members-delete = λ key s. refl;
  time = λ s. s.2;
  deadline = λ key s. s.3;
  time-zremrangebyscore = λ key bound s. refl;
  time-zadd = λ key score m s. refl;
  deadline-zremrangebyscore = λ key bound s d h. h;
  deadline-expire = λ key seconds s d positive h. expire-deadline seconds s d positive h;
  deadline-pass = λ key t s d h. expired-deadline t s s.3 d refl h;
  members-pass = λ key t s. expired-members t s s.3 refl;
}

-- One request at second 100 was allowed.
abbrev one : World
one = ((100_000, entry_name 100_000 7) ∷ [], true, 100_000, some 160_000)

one-Reach : Reach redis redis-IsRedis 1 (codes "k") one (100_000 ∷ []) 100_000
unfolding is_allowed rate_limit_lua filter_by
one-Reach =
    Reach.request {s = ([], true, 100_000, none)} {log = []} {clock = 0} 100_000 7
      (Reach.start refl) (omega arith) refl (omega arith) refl

abbrev request : Request
request = record {
  method = codes "POST";
  path = codes "/documents";
  api_key = some (codes "k");
  client_host = none;
}

abbrev next_app : Request → Exec World Response
next_app r s = (ok (record { status_code = 200; content = []; headers = [] }), s)

-- The application behind the rate limiter, which logs a line for each request.
abbrev limited : Request → Exec (Logs × World) Response
unfolding log
limited r (logs, s) =
    let (answer, s') = rate_limit_middleware redis 1 next_app 130_000 9 130_001 r s in
    (answer, (log (codes "rate_limiter") none logs, s'))

limited-IsQuiet : IsQuiet limited
unfolding limited log is_request_line
limited-IsQuiet r logs s = (_, (refl, tt), refl)

abbrev requests : List (Text × Request)
requests = (codes "r1", request) ∷ (codes "r2", request) ∷ []

serve-IsTraced_example :
    ((serve limited requests (no_logs, one)).1.0.bound ≡ none)
    × (filter_by is_request_line (serve limited requests (no_logs, one)).1.0.lines
        ≡ lines_of requests (serve limited requests (no_logs, one)).0)
    × AreIdentified requests (serve limited requests (no_logs, one)).0
serve-IsTraced_example = serve-IsTraced limited requests one limited-IsQuiet

application-limits_example :
    (is_health request ≡ true
      → application redis 1 next_app (codes "r1") 130_000 9 130_001 request (no_logs, one)
        ≡ unlogged next_app request (no_logs, one))
    × (is_health request ≡ false
        → 1 ≤ in_window 130_000 (100_000 ∷ [])
        → application redis 1 next_app (codes "r1") 130_000 9 130_001 request (no_logs, one) ≡ (
          ok (record too_many {
            headers = put too_many.headers (codes "X-Request-ID") (codes "r1");
          }),
          (
            record {
              bound = none;
              lines =
                  start_line (codes "r1") request
                  ∷ refusal_line (codes "r1") request
                  ∷ end_line (codes "r1") request 429
                  ∷ [];
            },
            (is_allowed redis 1 (limit_key request) 130_000 9 one).1,
          ),
        ))
    × (is_health request ≡ false
        → in_window 130_000 (100_000 ∷ []) < 1
        → (response : Response) (s' : World)
        → next_app request (is_allowed redis 1 (limit_key request) 130_000 9 one).1
          ≡ (ok response, s')
        → (answer : Response) × ((application redis 1 next_app
              (codes "r1")
              130_000
              9
              130_001
              request
              (no_logs, one)).0
            ≡ ok answer)
          × (answer.status_code ≡ response.status_code)
          × (answer.content ≡ response.content)
          × (get answer.headers (codes "X-Request-ID") ≡ some (codes "r1")))
unfolding limit_key
application-limits_example =
    application-limits redis redis-IsRedis 1 next_app (codes "r1") 130_000 9 130_001 request no_logs
      one (100_000 ∷ []) 100_000 one-Reach (omega arith) refl
