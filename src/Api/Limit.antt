-- ===== src/Api/Limit.antt =====
-- app/api/middleware/rate_limit.py. `call_next`, the rest of the application, is a parameter.
use ai_backend_api.Base.{
  ℕ, Bool, true, false, Option, none, some, List, [], ◌∷◌, if◌then◌else◌, ◌≡◌, refl, le→not-ltb,
  lt→ltb, ◌≤◌, ◌<◌,
}
use ai_backend_api.Base.Text.{Text, codes, show, text_eq}
use ai_backend_api.Base.Dict.{put}
use ai_backend_api.Base.Result.{ok}
use ai_backend_api.Api.{Request, Response}
use ai_backend_api.Exec.{Exec, ◌>>=◌}
use ai_backend_api.RateLimit.{Redis, IsRedis, is_allowed, get_remaining}
use ai_backend_api.RateLimit.Window.{is_allowed-window, Reach, in_window}

unfoldable pub is_health : Request → Bool
is_health request = text_eq request.path (codes "/health")

abbrev pub host_or_unknown : Option Text → Text
host_or_unknown none = codes "unknown"
host_or_unknown (some host) = host

-- The header, if it is not empty, or the client's address.
unfoldable pub limit_key : Request → Text
limit_key request = elim request.api_key [
  | none ↦ host_or_unknown request.client_host
  | some [] ↦ host_or_unknown request.client_host
  | some (c ∷ cs) ↦ c ∷ cs
]

unfoldable pub too_many : Response
too_many = record {
  status_code = 429;
  content =
      (codes "detail", codes "Rate limit exceeded. Please try again later.")
      ∷ (codes "code", codes "RATE_LIMIT_EXCEEDED")
      ∷ [];
  headers = (codes "Retry-After", codes "60") ∷ [];
}

abbrev pub with_limits : ℕ → ℕ → Response → Response
with_limits remaining limit response = record response {
  headers =
      put (put response.headers (codes "X-RateLimit-Remaining") (show remaining))
        (codes "X-RateLimit-Limit") (show limit);
}

module _ (redis : Redis) (limit : ℕ) (call_next : Request → Exec redis.State Response) where
  -- What follows an allowed request.
  unfoldable pub proceed : ℕ → Request → Exec redis.State Response
  proceed later request = do
    response ← call_next request
    (λ s.
        let (remaining, s') = get_remaining redis limit (limit_key request) later s in
        (ok (with_limits remaining limit response), s'))

  -- `is_allowed` catches the failures of Redis itself, so the `except` of the middleware is not
  -- reached. `now` and `later` are the clock's readings, `draw` is the script's random number.
  unfoldable pub rate_limit_middleware : (now draw later : ℕ) → Request → Exec redis.State Response
  rate_limit_middleware now draw later request s =
      let (allowed, s') = is_allowed redis limit (limit_key request) now draw s in
      if is_health request
      then call_next request s
      else (if allowed then proceed later request s' else (ok too_many, s'))

-- In a state that calls for the request's key reach while Redis answers: a request to another path
-- than /health is answered 429 without a call of the application exactly when the 60 seconds up to
-- it have `limit` allowed requests of its key, and is passed on otherwise. A request to /health is
-- passed on whatever the state, and leaves the limiter alone.
pub rate_limit_middleware-window :
    (redis : Redis) (laws : IsRedis redis) (limit : ℕ)
    (call_next : Request → Exec redis.State Response) (now draw later : ℕ) (request : Request)
    (s : redis.State) (log : List ℕ) (clock : ℕ)
    → Reach redis laws limit (limit_key request) s log clock
    → clock ≤ now
    → redis.available s ≡ true
    → (is_health request ≡ true
        → rate_limit_middleware redis limit call_next now draw later request s
          ≡ call_next request s)
      × (is_health request ≡ false
          → limit ≤ in_window now log
          → rate_limit_middleware redis limit call_next now draw later request s
            ≡ (ok too_many, (is_allowed redis limit (limit_key request) now draw s).1))
      × (is_health request ≡ false
          → in_window now log < limit
          → rate_limit_middleware redis limit call_next now draw later request s
            ≡ proceed redis limit call_next later request
                (is_allowed redis limit (limit_key request) now draw s).1)
unfolding rate_limit_middleware
rate_limit_middleware-window redis laws limit call_next now draw later request s log clock reach h
      up =
    let allowed = (is_allowed-window redis laws limit (limit_key request) now draw reach h up).0 in
    (
      λ health. rw health refl,
      λ health full. rw (health, allowed, le→not-ltb (in_window now log) limit full) refl,
      λ health room. rw (health, allowed, lt→ltb (in_window now log) limit room) refl,
    )
