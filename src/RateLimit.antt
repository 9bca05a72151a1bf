-- ===== src/RateLimit.antt =====
-- app/infrastructure/cache/rate_limiter.py, with its Lua script, and
-- app/api/middleware/rate_limit.py. Times are in milliseconds. The sorted sets of Redis are a
-- parameter, with their times to live.
pub mod Window
use ai_backend_api.Base.{
  ℕ, zero, ◌+◌, ◌-◌, Bool, true, false, not, Option, none, some, List, [], ◌∷◌, ◌++◌, ltb,
  if◌then◌else◌, String, ◌==◌, filter_by, length, ◌≡◌, ◌≤◌, ◌*◌, ◌⊎◌,
}
use ai_backend_api.Base.Text.{Text, codes, show, text_eq, is_nonempty}
use ai_backend_api.Base.Int.{ℤ, pos, sub_ℕ, ltb_ℤ}

-- A member of a sorted set, after its score.
abbrev pub Member : Type 0
Member = ℕ × Text

pub record Redis : Type 1 where
  pub State : Type 0
  -- Whether the server answers; a call that it does not answer raises and changes nothing.
  pub available : State → Bool
  -- ZREMRANGEBYSCORE key -inf max
  pub zremrangebyscore : Text → ℤ → State → State
  pub zcard : Text → State → ℕ
  pub zadd : Text → ℕ → Text → State → State
  pub expire : Text → ℕ → State → State
  pub delete : Text → State → State
  -- The server's clock comes to a time, and what has expired by then is gone.
  pub pass : ℕ → State → State

abbrev pub has_member : Text → List Member → Bool
has_member m [] = false
has_member m ((s, n) ∷ ms) = if text_eq n m then true else has_member m ms

-- The documented behaviour of the commands, in the sets as lists.
pub record IsRedis (redis : Redis) : Type 0 where
  pub members : Text → redis.State → List Member
  pub members-zremrangebyscore :
      (key : Text) (bound : ℤ) (s : redis.State)
      → members key (redis.zremrangebyscore key bound s)
        ≡ filter_by (λ m. ltb_ℤ bound (pos m.0)) (members key s)
  pub zcard-members : (key : Text) (s : redis.State) → redis.zcard key s ≡ length (members key s)
  pub members-zadd :
      (key : Text) (score : ℕ) (m : Text) (s : redis.State)
      → has_member m (members key s) ≡ false
      → members key (redis.zadd key score m s) ≡ (score, m) ∷ members key s
  -- A time to live that is not 0 only sets a deadline.
  pub members-expire :
      (key : Text) (seconds : ℕ) (s : redis.State)
      → 1 ≤ seconds
      → members key (redis.expire key seconds s) ≡ members key s
  pub members-delete : (key : Text) (s : redis.State) → members key (redis.delete key s) ≡ []
  -- The server's clock, and when a key expires.
  pub time : redis.State → ℕ
  pub deadline : Text → redis.State → Option ℕ
  pub time-zremrangebyscore :
      (key : Text) (bound : ℤ) (s : redis.State)
      → time (redis.zremrangebyscore key bound s) ≡ time s
  pub time-zadd :
      (key : Text) (score : ℕ) (m : Text) (s : redis.State)
      → time (redis.zadd key score m s) ≡ time s
  -- A key that expires still has its deadline after a change of the set, unless the set is gone.
  pub deadline-zremrangebyscore :
      (key : Text) (bound : ℤ) (s : redis.State) (d : ℕ)
      → deadline key (redis.zremrangebyscore key bound s) ≡ some d
      → deadline key s ≡ some d
  pub deadline-expire :
      (key : Text) (seconds : ℕ) (s : redis.State) (d : ℕ)
      → 1 ≤ seconds
      → deadline key (redis.expire key seconds s) ≡ some d
      → d ≡ time s + 1000 * seconds
  pub deadline-pass :
      (key : Text) (t : ℕ) (s : redis.State) (d : ℕ)
      → deadline key (redis.pass t s) ≡ some d
      → deadline key s ≡ some d
  -- Only what has reached its deadline is removed.
  pub members-pass :
      (key : Text) (t : ℕ) (s : redis.State)
      → (members key (redis.pass t s) ≡ members key s)
        ⊎ ((members key (redis.pass t s) ≡ []) × ((d : ℕ) × (deadline key s ≡ some d) × (d ≤ t)))

-- 60.0 seconds
abbrev pub window_milliseconds : ℕ
window_milliseconds = 60_000

pub rate_key : Text → Text
rate_key key = codes "rate:" ++ key

-- `now .. ':' .. math.random(1000000)`
pub entry_name : ℕ → ℕ → Text
entry_name now draw = show now ++ (codes ":" ++ show draw)

module _ (redis : Redis) where
  -- `_RATE_LIMIT_LUA`; `draw` is what `math.random` returns.
  unfoldable pub rate_limit_lua : Text → ℕ → ℕ → ℕ → ℕ → redis.State → ℕ × redis.State
  rate_limit_lua key now window limit draw s =
      let trimmed = redis.zremrangebyscore key (sub_ℕ now window) s in
      if ltb (redis.zcard key trimmed) limit
      then (1, redis.expire key 60 (redis.zadd key now (entry_name now draw) trimmed))
      else (0, trimmed)

  -- `is_allowed(key)`: a failure of Redis allows the request.
  unfoldable pub is_allowed : ℕ → Text → ℕ → ℕ → redis.State → Bool × redis.State
  unfolding rate_limit_lua
  is_allowed requests_per_minute key now draw s =
      if redis.available s
      then (let (result, s') =
            rate_limit_lua (rate_key key) now window_milliseconds requests_per_minute draw s in
          (not (result == 0), s'))
      else (true, s)

  -- `get_remaining(key)`; `max(0, …)` is the subtraction on ℕ.
  unfoldable pub get_remaining : ℕ → Text → ℕ → redis.State → ℕ × redis.State
  get_remaining requests_per_minute key now s =
      if redis.available s
      then (let trimmed = redis.zremrangebyscore (rate_key key) (sub_ℕ now window_milliseconds) s in
          (requests_per_minute - redis.zcard (rate_key key) trimmed, trimmed))
      else (requests_per_minute, s)

  unfoldable pub reset : Text → redis.State → redis.State
  reset key s = redis.delete (rate_key key) s
