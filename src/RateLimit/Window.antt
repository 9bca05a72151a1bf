-- ===== src/RateLimit/Window.antt =====
-- The rate limiter as a sliding window: what it answers, in the times of the requests it allowed.
use ai_backend_api.Base.{
  ℕ, suc, ◌+◌, ◌-◌, ◌≤◌, Bool, true, false, List, [], ◌∷◌, map, ltb, if◌then◌else◌, filter_by,
  filter-filter, filter_by-nil, All, some, subst, length-filter_mono, filter_by-ext, length,
  length-map, ◌≡◌, refl, sym, ap, ◌∙◌, inl, inr, Bool-cases, arith, ltb→lt,
}
use ai_backend_api.Base.Text.{Text}
use ai_backend_api.Base.Int.{ℤ, pos, sub_ℕ, ltb_ℤ}
use ai_backend_api.RateLimit.{
  Member, Redis, IsRedis, has_member, window_milliseconds, rate_key, entry_name, rate_limit_lua,
  is_allowed, get_remaining, reset,
}

-- A request allowed at `t` counts at `now`.
abbrev pub alive : ℕ → ℕ → Bool
alive now t = ltb now (t + window_milliseconds)

-- The requests of a log that count at `now`.
abbrev pub in_window : ℕ → List ℕ → ℕ
in_window now log = length (filter_by (alive now) log)

kept : (now score : ℕ) → ltb_ℤ (sub_ℕ now window_milliseconds) (pos score) ≡ alive now score
kept now score = ground arith

dead : (score now : ℕ) → score + window_milliseconds ≤ now → alive now score ≡ false
dead score now h = ground (arith, h)

All-filter_by :
    (P : Member → Type 0) (p : Member → Bool) (ms : List Member) → All P ms → All P (filter_by p ms)
unfolding filter_by
All-filter_by P p [] h = tt
All-filter_by P p (m ∷ ms) (h, hs) = elim (Bool-cases (p m)) [
  | inl kept ↦ rw kept (h, All-filter_by P p ms hs)
  | inr gone ↦ rw gone (All-filter_by P p ms hs)
]

All-map :
    {P Q : Member → Type 0} (ms : List Member) → ((m : Member) → P m → Q m) → All P ms → All Q ms
All-map [] f h = tt
All-map (m ∷ ms) f h = (f m h.0, All-map ms f h.1)

-- What is alive later is alive now.
alive_mono : (now later t : ℕ) → now ≤ later → alive later t ≡ true → alive now t ≡ true
alive_mono now later t h e = ground arith

module _ (redis : Redis) (laws : IsRedis redis) (limit : ℕ) (key : Text) where
  -- The scores of the sorted set that count at `now`.
  abbrev stored : ℕ → redis.State → List ℕ
  stored now s = map (λ m. m.0) (filter_by (λ m. alive now m.0) (laws.members (rate_key key) s))

  -- The states that calls for this key reach while Redis answers, the times of the calls never
  -- decreasing, while time passes on the server, with the times of the allowed requests since the
  -- last reset, the latest first, and the time of the last call or passing. The program's clock is
  -- not ahead of the server's. A request's name is not one of the names that are in the set.
  pub data Reach : redis.State → List ℕ → ℕ → Type 0 where
    start : {s : redis.State} → laws.members (rate_key key) s ≡ [] → Reach s [] 0
    request :
        {s : redis.State} {log : List ℕ} {clock : ℕ} (now draw : ℕ)
        → Reach s log clock
        → clock ≤ now
        → redis.available s ≡ true
        → now ≤ laws.time s
        → has_member (entry_name now draw) (
            laws.members
              (rate_key key)
              (redis.zremrangebyscore (rate_key key) (sub_ℕ now window_milliseconds) s))
          ≡ false
        → Reach
            (is_allowed redis limit key now draw s).1
            (if (is_allowed redis limit key now draw s).0 then now ∷ log else log)
            now
    remaining :
        {s : redis.State} {log : List ℕ} {clock : ℕ} (now : ℕ)
        → Reach s log clock
        → clock ≤ now
        → redis.available s ≡ true
        → Reach (get_remaining redis limit key now s).1 log now
    passes :
        {s : redis.State} {log : List ℕ} {clock : ℕ} (t : ℕ)
        → Reach s log clock
        → clock ≤ t
        → Reach (redis.pass t s) log t
    cleared :
        {s : redis.State} {log : List ℕ} {clock : ℕ}
        → Reach s log clock
        → Reach (reset redis key s) [] clock

  -- The set and the log agree on what counts from now on, which is not more than the limit.
  record Agrees (s : redis.State) (log : List ℕ) (clock : ℕ) : Type 0 where
    same : (later : ℕ) → clock ≤ later → stored later s ≡ filter_by (alive later) log
    bounded : in_window clock log ≤ limit
    past : All (λ m. m.0 ≤ clock) (laws.members (rate_key key) s)
    -- The set expires when none of its entries counts any more.
    lasting :
        (d : ℕ)
        → laws.deadline (rate_key key) s ≡ some d
        → All (λ m. m.0 + window_milliseconds ≤ d) (laws.members (rate_key key) s)

  -- What trimming keeps of an invariant of the entries.
  All-trim :
      (P : Member → Type 0) (bound : ℤ) (s : redis.State)
      → All P (laws.members (rate_key key) s)
      → All P (laws.members (rate_key key) (redis.zremrangebyscore (rate_key key) bound s))
  All-trim P bound s h =
      subst (λ l. All P l) (sym (laws.members-zremrangebyscore (rate_key key) bound s))
        (All-filter_by P (λ m. ltb_ℤ bound (pos m.0)) (laws.members (rate_key key) s) h)

  past_mono :
      (clock now : ℕ) (s : redis.State)
      → clock ≤ now
      → All (λ m. m.0 ≤ clock) (laws.members (rate_key key) s)
      → All (λ m. m.0 ≤ now) (laws.members (rate_key key) s)
  past_mono clock now s h = All-map (laws.members (rate_key key) s) (λ m e. omega (arith, h, e))

  -- After the entry and its time to live.
  added_members :
      (now seconds : ℕ) (name : Text) (t : redis.State)
      → 1 ≤ seconds
      → has_member name (laws.members (rate_key key) t) ≡ false
      → laws.members
          (rate_key key)
          (redis.expire (rate_key key) seconds (redis.zadd (rate_key key) now name t))
        ≡ (now, name) ∷ laws.members (rate_key key) t
  added_members now seconds name t positive fresh =
      laws.members-expire (rate_key key) seconds (redis.zadd (rate_key key) now name t) positive
      ∙ laws.members-zadd (rate_key key) now name t fresh

  added-lasting :
      (now : ℕ) (name : Text) (t : redis.State)
      → now ≤ laws.time t
      → has_member name (laws.members (rate_key key) t) ≡ false
      → All (λ m. m.0 ≤ now) (laws.members (rate_key key) t)
      → (d : ℕ)
      → laws.deadline
          (rate_key key)
          (redis.expire (rate_key key) 60 (redis.zadd (rate_key key) now name t))
        ≡ some d
      → All
          (λ m. m.0 + window_milliseconds ≤ d)
          (laws.members
            (rate_key key)
            (redis.expire (rate_key key) 60 (redis.zadd (rate_key key) now name t)))
  added-lasting now name t clocks fresh old d e =
      let at = laws.deadline-expire (rate_key key) 60 _ d (omega arith) e in
      let same = laws.time-zadd (rate_key key) now name t in
      subst (λ l. All (λ m. m.0 + window_milliseconds ≤ d) l)
        (sym (added_members now 60 name t (omega arith) fresh))
        (
          omega (arith, at, same, clocks),
          All-map (laws.members (rate_key key) t) (λ m h. omega (arith, at, same, clocks, h)) old,
        )

  -- A set that has expired had no entry that counts.
  expired-nil :
      (t d : ℕ) (s : redis.State)
      → d ≤ t
      → All (λ m. m.0 + window_milliseconds ≤ d) (laws.members (rate_key key) s)
      → (later : ℕ) → t ≤ later
      → stored later s ≡ []
  expired-nil t d s due lasting later h =
      ap (λ l. map (λ m. m.0) l)
        (filter_by-nil (λ m. alive later m.0) (laws.members (rate_key key) s)
          (All-map (laws.members (rate_key key) s)
            (λ m e. dead m.0 later (omega (arith, e, due, h))) lasting))

  stored-trim :
      (now later : ℕ) (s : redis.State)
      → now ≤ later
      → stored later (redis.zremrangebyscore (rate_key key) (sub_ℕ now window_milliseconds) s)
        ≡ stored later s
  stored-trim now later s h =
      rw (laws.members-zremrangebyscore (rate_key key) (sub_ℕ now window_milliseconds) s) (
        ap (λ l. map (λ m. m.0) l)
          (filter-filter (λ (m : Member). ltb_ℤ (sub_ℕ now window_milliseconds) (pos m.0))
            (λ m. alive later m.0) (λ m e. kept now m.0 ∙ alive_mono now later m.0 h e)
            (laws.members (rate_key key) s)))

  -- ZCARD after the trimming counts the log's window.
  zcard-trim :
      (now : ℕ) (s : redis.State) (log : List ℕ)
      → stored now s ≡ filter_by (alive now) log
      → redis.zcard
          (rate_key key)
          (redis.zremrangebyscore (rate_key key) (sub_ℕ now window_milliseconds) s)
        ≡ in_window now log
  zcard-trim now s log e =
      let bound = sub_ℕ now window_milliseconds in
      laws.zcard-members (rate_key key) (redis.zremrangebyscore (rate_key key) bound s)
      ∙ (ap length (laws.members-zremrangebyscore (rate_key key) bound s)
          ∙ (ap length (
                filter_by-ext (λ (m : Member). ltb_ℤ bound (pos m.0)) (λ m. alive now m.0)
                  (λ m. kept now m.0) (laws.members (rate_key key) s))
              ∙ (sym (
                    length-map
                      (filter_by (λ (m : Member). alive now m.0) (laws.members (rate_key key) s))
                      (λ m. m.0))
                  ∙ ap length e)))

  -- From a state where the set and the log agree at `now`, a request is allowed exactly when the log
  -- has fewer than `limit` requests in the window.
  is_allowed-answer :
      (now draw : ℕ) (s : redis.State) (log : List ℕ)
      → redis.available s ≡ true
      → stored now s ≡ filter_by (alive now) log
      → (is_allowed redis limit key now draw s).0 ≡ ltb (in_window now log) limit
  unfolding is_allowed rate_limit_lua
  is_allowed-answer now draw s log up e = elim (Bool-cases (ltb (in_window now log) limit)) [
    | inl below ↦ rw (up, zcard-trim now s log e) (rw below refl)
    | inr full ↦ rw (up, zcard-trim now s log e) (rw full refl)
  ]

  -- Adding an entry to a set adds its time to the log.
  stored-zadd :
      (now later seconds : ℕ) (name : Text) (t : redis.State) (log : List ℕ)
      → 1 ≤ seconds
      → has_member name (laws.members (rate_key key) t) ≡ false
      → stored later t ≡ filter_by (alive later) log
      → stored later (redis.expire (rate_key key) seconds (redis.zadd (rate_key key) now name t))
        ≡ filter_by (alive later) (now ∷ log)
  unfolding filter_by
  stored-zadd now later seconds name t log positive fresh e =
      let members_eq = added_members now seconds name t positive fresh in
      elim (Bool-cases (alive later now)) [
        | inl live ↦ rw members_eq (rw live (ap (λ (l : List ℕ). now ∷ l) e))
        | inr dead ↦ rw members_eq (rw dead e)
      ]

  in_window-cons : (now : ℕ) (log : List ℕ) → in_window now (now ∷ log) ≡ suc (in_window now log)
  unfolding filter_by
  in_window-cons now log = let live : alive now now ≡ true = ground arith in rw live refl

  request-Agrees :
      (now draw clock : ℕ) (s : redis.State) (log : List ℕ)
      → clock ≤ now
      → redis.available s ≡ true
      → now ≤ laws.time s
      → has_member (entry_name now draw) (
          laws.members
            (rate_key key)
            (redis.zremrangebyscore (rate_key key) (sub_ℕ now window_milliseconds) s))
        ≡ false
      → Agrees s log clock
      → Agrees
          (is_allowed redis limit key now draw s).1
          (if (is_allowed redis limit key now draw s).0 then now ∷ log else log)
          now
  unfolding is_allowed rate_limit_lua
  request-Agrees now draw clock s log h up clocks fresh a =
      let e = a.same now h in
      let z = zcard-trim now s log e in
      let bound = sub_ℕ now window_milliseconds in
      let old = All-trim (λ m. m.0 ≤ now) bound s (past_mono clock now s h a.past) in
      let trimmed_same = λ (later : ℕ) (g : now ≤ later).
        stored-trim now later s g ∙ a.same later (omega (arith, h, g)) in
      elim (Bool-cases (ltb (in_window now log) limit)) [
        | inl below ↦
            rw (up, z)
              (rw below (record {
                same = λ later g.
                    stored-zadd now later 60 (entry_name now draw) _ log (omega arith) fresh
                      (trimmed_same later g);
                bounded =
                    omega (arith, in_window-cons now log, ltb→lt (in_window now log) limit below);
                past =
                    subst (λ l. All (λ m. m.0 ≤ now) l)
                      (sym (added_members now 60 (entry_name now draw) _ (omega arith) fresh))
                      (omega arith, old);
                lasting =
                    added-lasting now (entry_name now draw) _
                      (omega (arith, clocks, laws.time-zremrangebyscore (rate_key key) bound s))
                      fresh old;
              }))
        | inr full ↦
            rw (up, z)
              (rw full (record {
                same = trimmed_same;
                bounded = omega (
                  arith,
                  a.bounded,
                  length-filter_mono (alive clock) (alive now) (λ t. alive_mono clock now t h) log,
                );
                past = old;
                lasting = λ d at.
                    All-trim (λ m. m.0 + window_milliseconds ≤ d) bound s
                      (a.lasting d (laws.deadline-zremrangebyscore (rate_key key) bound s d at));
              }))
      ]

  pass-Agrees :
      (t clock : ℕ) (s : redis.State) (log : List ℕ)
      → clock ≤ t
      → Agrees s log clock
      → Agrees (redis.pass t s) log t
  unfolding filter_by
  pass-Agrees t clock s log h a =
      let fewer : in_window t log ≤ limit = omega (
        arith,
        a.bounded,
        length-filter_mono (alive clock) (alive t) (λ x. alive_mono clock t x h) log,
      ) in
      elim (laws.members-pass (rate_key key) t s) [
        | inl stays ↦ record {
          same = λ later g.
              ap (λ l. map (λ m. m.0) (filter_by (λ m. alive later m.0) l)) stays
              ∙ a.same later (omega (arith, h, g));
          bounded = fewer;
          past = subst (λ l. All (λ m. m.0 ≤ t) l) (sym stays) (past_mono clock t s h a.past);
          lasting = λ d at.
              subst (λ l. All (λ m. m.0 + window_milliseconds ≤ d) l) (sym stays)
                (a.lasting d (laws.deadline-pass (rate_key key) t s d at));
        }
        | inr (gone, (d, at, due)) ↦ record {
          same = λ later g.
              ap (λ l. map (λ m. m.0) (filter_by (λ m. alive later m.0) l)) gone
              ∙ (sym (expired-nil t d s due (a.lasting d at) later g)
                  ∙ a.same later (omega (arith, h, g)));
          bounded = fewer;
          past = rw gone tt;
          lasting = λ d' at'. rw gone tt;
        }
      ]

  Reach-Agrees :
      {s : redis.State} {log : List ℕ} {clock : ℕ} → Reach s log clock → Agrees s log clock
  unfolding filter_by get_remaining reset
  Reach-Agrees (Reach.start {s} e) = record {
    same = λ later h. rw e refl;
    bounded = omega arith;
    past = rw e tt;
    lasting = λ d at. rw e tt;
  }
  Reach-Agrees (Reach.request {s} {log} {clock} now draw r h up clocks fresh) =
      request-Agrees now draw clock s log h up clocks fresh (Reach-Agrees r)
  Reach-Agrees (Reach.remaining {s} {log} {clock} now r h up) =
      let a = Reach-Agrees r in
      rw up (record {
        same = λ later g. stored-trim now later s g ∙ a.same later (omega (arith, h, g));
        bounded = omega (
          arith,
          a.bounded,
          length-filter_mono (alive clock) (alive now) (λ t. alive_mono clock now t h) log,
        );
        past =
            All-trim (λ m. m.0 ≤ now) (sub_ℕ now window_milliseconds) s
              (past_mono clock now s h a.past);
        lasting = λ d at.
            All-trim (λ m. m.0 + window_milliseconds ≤ d) (sub_ℕ now window_milliseconds) s
              (a.lasting d (
                laws.deadline-zremrangebyscore (rate_key key) (sub_ℕ now window_milliseconds) s d
                  at));
      })
  Reach-Agrees (Reach.passes {s} {log} {clock} t r h) = pass-Agrees t clock s log h (Reach-Agrees r)
  Reach-Agrees (Reach.cleared {s} {log} {clock} r) = record {
    same = λ later h. rw (laws.members-delete (rate_key key) s) refl;
    bounded = omega arith;
    past = rw (laws.members-delete (rate_key key) s) tt;
    lasting = λ d at. rw (laws.members-delete (rate_key key) s) tt;
  }

  pub is_allowed-window :
      {s : redis.State} {log : List ℕ} {clock : ℕ} (now draw : ℕ)
      → Reach s log clock
      → clock ≤ now
      → redis.available s ≡ true
      → ((is_allowed redis limit key now draw s).0 ≡ ltb (in_window now log) limit)
        × ((get_remaining redis limit key now s).0 ≡ limit - in_window now log)
        × (in_window clock log ≤ limit)
  unfolding get_remaining
  is_allowed-window {s} {log} now draw r h up =
      let a = Reach-Agrees r in
      (
        is_allowed-answer now draw s log up (a.same now h),
        rw (up, zcard-trim now s log (a.same now h)) refl,
        a.bounded,
      )

-- When Redis does not answer, every request is allowed, the whole limit is reported as remaining,
-- and nothing is written.
pub is_allowed-unavailable :
    (redis : Redis) (limit : ℕ) (key : Text) (now draw : ℕ) (s : redis.State)
    → redis.available s ≡ false
    → (is_allowed redis limit key now draw s ≡ (true, s))
      × (get_remaining redis limit key now s ≡ (limit, s))
unfolding is_allowed get_remaining
is_allowed-unavailable redis limit key now draw s down = rw down (refl, refl)
