-- ===== src/Worker/Drain.antt =====
-- What a running worker owes to the tasks whose coroutines end.
use ai_backend_api.Base.{
  ℕ, zero, suc, ◌+◌, ◌*◌, ◌≤◌, ◌<◌, ◌≡◌, refl, sym, ◌∙◌, ap, subst, true, Option, none, some, List,
  [], ◌∷◌, if◌then◌else◌, arith, length, length-append, Bool-cases, inl, inr, ◌⊎◌,
}
use ai_backend_api.Base.Text.{Text, text_eq, text_eq_iff}
use ai_backend_api.Base.Dict.{get}
use ai_backend_api.Worker.{
  TaskStatus, TaskInfo, Outcome, left_behind, BackgroundWorker, worker_new, change, with_status,
  concluded, loop_round, taken, begin_execution, entered, conclude, erase, is_member, release,
  released, Step, Steps, here, more, loops, begins, concludes, releases,
}
use ai_backend_api.Worker.Invariant.{
  IsTracked, occurrences, pending_of, running_of, map_info, get-change, length-erase,
  Step-IsTracked, Steps-IsTracked,
}

abbrev pub end_status : Option Text → TaskStatus
end_status none = TaskStatus.completed
end_status (some text) = TaskStatus.failed

abbrev pub status_of : Option TaskInfo → Option TaskStatus
status_of none = none
status_of (some info) = some info.status

-- The coroutine returns, or raises an `Exception` with this text.
abbrev pub ending : Option Text → Outcome
ending none = Outcome.returned
ending (some text) = Outcome.raised text

-- The operations that a running worker still has to make.
abbrev to_do : BackgroundWorker → ℕ
to_do w = 4 * length w.queue + 3 * length w.waiting + 2 * length w.executing + w.leaving

module _ (outcome : Text → Option Text) where
  -- A task that is pending or running, or has ended as its coroutine does.
  abbrev IsOnTheWay : Text → BackgroundWorker → Type 0
  IsOnTheWay i w =
      (0 < pending_of (get w.tasks i) + running_of (get w.tasks i))
      ⊎ (status_of (get w.tasks i) ≡ some (end_status (outcome i)))

  -- A step that brings the work forward.
  record Progress (w v : BackgroundWorker) : Type 0 where
    step : Step w v
    still_running : v.is_running ≡ w.is_running
    still_looping : v.is_looping ≡ w.is_looping
    still_abandoned : v.abandoned ≡ w.abandoned
    less : suc (to_do v) ≤ to_do w
    kept : (i : Text) → IsOnTheWay i w → IsOnTheWay i v

  released-Progress :
      (w : BackgroundWorker) (l n : ℕ)
      → w.leaving ≡ l
      → w.leaving ≡ suc n
      → Step w (released l w)
      → Progress w (released l w)
  released-Progress w zero n e f s = absurd (omega arith)
  released-Progress w (suc l) n e f s = record {
    step = s;
    still_running = refl;
    still_looping = refl;
    still_abandoned = refl;
    less = omega (arith, e);
    kept = λ i h. h;
  }

  is_member-head : (k : Text) (xs ex : List Text) → xs ≡ k ∷ ex → is_member k xs ≡ true
  unfolding is_member
  is_member-head k [] ex e = absurd (cc)
  is_member-head k (x ∷ xs) ex e = ground (arith, text_eq_iff k x)

  ended :
      (o : Option Text) (info : Option TaskInfo)
      → 0 < pending_of info + running_of info
      → status_of (map_info (concluded (ending o)) info) ≡ some (end_status o)
  ended none none h = absurd (omega arith)
  ended (some t) none h = absurd (omega arith)
  ended none (some info) h = refl
  ended (some t) (some info) h = refl

  ended_again :
      (o : Option Text) (info : Option TaskInfo)
      → status_of info ≡ some (end_status o)
      → status_of (map_info (concluded (ending o)) info) ≡ some (end_status o)
  ended_again o none h = absurd (cc)
  ended_again none (some info) h = refl
  ended_again (some t) (some info) h = refl

  kept_at :
      (i k : Text) (o o' : Option TaskInfo)
      → o' ≡ (if text_eq k i then map_info (concluded (ending (outcome k))) o else o)
      → (0 < pending_of o + running_of o) ⊎ (status_of o ≡ some (end_status (outcome i)))
      → (0 < pending_of o' + running_of o') ⊎ (status_of o' ≡ some (end_status (outcome i)))
  kept_at i k o o' e p = elim (Bool-cases (text_eq k i)) [
    | inl same ↦
        let eq : k ≡ i = (text_eq_iff k i).0 same in
        let Ends : Text → Type 0 = λ j.
          status_of (map_info (concluded (ending (outcome k))) o) ≡ some (end_status (outcome j)) in
        rw (e, same)
          (inr (
            subst Ends eq (elim p [
              | inl h ↦ ended (outcome k) o h
              | inr h ↦
                  ended_again (outcome k) o
                    (subst (λ j. status_of o ≡ some (end_status (outcome j))) (sym eq) h)
            ])))
    | inr other ↦ rw (e, other) p
  ]

  left_behind-ending : (o : Option Text) (k : Text) (l : List Text) → left_behind (ending o) k l ≡ l
  left_behind-ending none k l = refl
  left_behind-ending (some text) k l = refl

  conclude-Progress :
      (w : BackgroundWorker) (k : Text) (ex : List Text)
      → w.executing ≡ k ∷ ex
      → Progress w (conclude k (ending (outcome k)) w)
  unfolding conclude
  conclude-Progress w k ex e =
      let within : is_member k w.executing ≡ true = is_member-head k w.executing ex e in
      let after : BackgroundWorker = record w {
        executing = erase k w.executing;
        leaving = suc w.leaving;
        abandoned = left_behind (ending (outcome k)) k w.abandoned;
        tasks = change (concluded (ending (outcome k))) k w.tasks;
      } in
      let same : conclude k (ending (outcome k)) w ≡ after = rw within refl in
      let progress : Progress w after = record {
        step = subst (Step w) same (concludes k (ending (outcome k)));
        still_running = refl;
        still_looping = refl;
        still_abandoned = left_behind-ending (outcome k) k w.abandoned;
        less = omega (arith, length-erase k w.executing within);
        kept = λ i.
            kept_at i k (get w.tasks i) (get after.tasks i)
              (get-change (concluded (ending (outcome k))) k w.tasks i);
      } in
      subst (Progress w) (sym same) progress

  entered-Progress :
      (w : BackgroundWorker) (q q' : List Text) (n n' : ℕ) (k : Text)
      → w.waiting ≡ q
      → w.waiting ≡ k ∷ q'
      → w.slots ≡ n
      → w.slots ≡ suc n'
      → Step w (entered q n w)
      → Progress w (entered q n w)
  unfolding change
  entered-Progress w [] q' n n' k e f g h s = absurd (cc)
  entered-Progress w (j ∷ q) q' zero n' k e f g h s = absurd (omega arith)
  entered-Progress w (j ∷ q) q' (suc n) n' k e f g h s = record {
    step = s;
    still_running = refl;
    still_looping = refl;
    still_abandoned = refl;
    less = omega (arith, ap (λ (l : List Text). length l) e);
    kept = λ i p. ground (arith, get-change (with_status TaskStatus.running) j w.tasks i);
  }

  taken-Progress :
      (w : BackgroundWorker) (q q' : List Text) (k : Text)
      → w.queue ≡ q
      → w.queue ≡ k ∷ q'
      → Step w (taken q w)
      → Progress w (taken q w)
  taken-Progress w [] q' k e f s = absurd (cc)
  taken-Progress w (j ∷ q) q' k e f s = record {
    step = s;
    still_running = refl;
    still_looping = refl;
    still_abandoned = refl;
    less = omega (arith, ap (λ (l : List Text). length l) e, length-append w.waiting (j ∷ []));
    kept = λ i h. h;
  }

-- What holds of a worker while its work goes on.
record IsLive (slots : ℕ) (w : BackgroundWorker) : Type 0 where
  tracked : IsTracked (suc slots) w
  running : w.is_running ≡ true
  looping : w.is_looping ≡ true

-- In front of a sequence of steps.
Steps-front : {w v u : BackgroundWorker} → Step w v → Steps v u → Steps w u
Steps-front s here = more here s
Steps-front s (more steps t) = more (Steps-front s steps) t

List-cases : (l : List Text) → (l ≡ []) ⊎ ((k : Text) × (q : List Text) × (l ≡ k ∷ q))
List-cases [] = inl refl
List-cases (k ∷ q) = inr (k, q, refl)

empty_of : (l : List Text) → length l ≡ 0 → l ≡ []
empty_of [] h = refl
empty_of (x ∷ l) h = absurd (omega arith)

ℕ-cases : (n : ℕ) → (n ≡ 0) ⊎ ((m : ℕ) × (n ≡ suc m))
ℕ-cases zero = inl refl
ℕ-cases (suc m) = inr (m, refl)

module _ (outcome : Text → Option Text) (slots : ℕ) where
  loop_round-Progress :
      (w : BackgroundWorker) (k : Text) (q : List Text)
      → IsLive slots w
      → w.queue ≡ k ∷ q
      → Progress outcome w (loop_round w)
  unfolding loop_round
  loop_round-Progress w k q v e =
      let same : loop_round w ≡ taken w.queue w = simp (v.looping, v.running) in
      subst (Progress outcome w) (sym same)
        (taken-Progress outcome w w.queue q k refl e (subst (Step w) same loops))

  progress :
      (w : BackgroundWorker)
      → IsLive slots w
      → (to_do w ≡ 0) ⊎ ((v : BackgroundWorker) × Progress outcome w v)
  unfolding begin_execution release
  progress w v = elim (ℕ-cases w.leaving) [
    | inr (n, e) ↦ inr (release w, released-Progress outcome w w.leaving n refl e releases)
    | inl none_leaves ↦ elim (List-cases w.executing) [
      | inr (k, ex, e) ↦ inr (conclude k (ending (outcome k)) w, conclude-Progress outcome w k ex e)
      | inl none_executes ↦ elim (List-cases w.waiting) [
        | inr (k, q, e) ↦ inr (
          begin_execution w,
          entered-Progress outcome w w.waiting q w.slots slots k refl e refl
              (omega (arith, v.tracked.bounded, ap (λ (l : List Text). length l) none_executes))
              begins,
        )
        | inl none_waits ↦ elim (List-cases w.queue) [
          | inr (k, q, e) ↦ inr (loop_round w, loop_round-Progress w k q v e)
          | inl none_queued ↦ inl (simp (none_leaves, none_executes, none_waits, none_queued))
        ]
      ]
    ]
  ]

  settle :
      (fuel : ℕ) (w : BackgroundWorker)
      → IsLive slots w
      → to_do w ≤ fuel
      → (u : BackgroundWorker) × Steps w u
        × IsLive slots u
        × (to_do u ≡ 0)
        × (u.abandoned ≡ w.abandoned)
        × ((i : Text) → IsOnTheWay outcome i w → IsOnTheWay outcome i u)
  settle zero w v h = (w, here, v, omega arith, refl, λ i p. p)
  settle (suc fuel) w v h = elim (progress w v) [
    | inl done ↦ (w, here, v, done, refl, λ i p. p)
    | inr (x, p) ↦
        let live : IsLive slots x = record {
          tracked = Step-IsTracked (suc slots) v.tracked p.step;
          running = p.still_running ∙ v.running;
          looping = p.still_looping ∙ v.looping;
        } in
        let (u, steps, live', done, same, kept) = settle fuel x live (omega (arith, p.less)) in
        (
          u,
          Steps-front p.step steps,
          live',
          done,
          same ∙ p.still_abandoned,
          λ i o. kept i (p.kept i o),
        )
  ]

  ends :
      (i : Text) (u : BackgroundWorker)
      → IsLive slots u
      → to_do u ≡ 0
      → occurrences i u.abandoned ≡ 0
      → IsOnTheWay outcome i u
      → status_of (get u.tasks i) ≡ some (end_status (outcome i))
  unfolding occurrences
  ends i u v done apart (inr e) = e
  ends i u v done apart (inl h) =
      let queued : occurrences i u.queue ≡ 0 =
        ap (occurrences i) (empty_of u.queue (omega (arith, done))) in
      let waits : occurrences i u.waiting ≡ 0 =
        ap (occurrences i) (empty_of u.waiting (omega (arith, done))) in
      let executed : occurrences i u.executing ≡ 0 =
        ap (occurrences i) (empty_of u.executing (omega (arith, done))) in
      absurd
        (omega (arith, v.tracked.queued i, v.tracked.executed i, queued, waits, executed, apart, h))

-- Liveness: from every state that a worker with at least one slot can reach and in which it runs,
-- if every coroutine ends by returning or by raising an `Exception`, some sequence of its own
-- operations leaves nothing queued, waiting, executed or leaving, and every task that was pending
-- or running, but for one whose coroutine had ended by a `CancelledError` before, is completed
-- where its coroutine returns and failed where it raises.
pub Steps-drain :
    (outcome : Text → Option Text) (slots : ℕ) {w : BackgroundWorker}
    → Steps (worker_new (suc slots)) w
    → w.is_running ≡ true
    → w.is_looping ≡ true
    → (u : BackgroundWorker) × Steps w u
      × (u.queue ≡ [])
      × (u.waiting ≡ [])
      × (u.executing ≡ [])
      × (u.slots ≡ suc slots)
      × ((i : Text)
          → 0 < pending_of (get w.tasks i) + running_of (get w.tasks i)
          → occurrences i w.abandoned ≡ 0
          → status_of (get u.tasks i) ≡ some (end_status (outcome i)))
Steps-drain outcome slots {w} before runs loop_runs =
    let live : IsLive slots w = record {
      tracked = Steps-IsTracked (suc slots) before;
      running = runs;
      looping = loop_runs;
    } in
    let (u, steps, live', done, same, kept) = settle outcome slots (to_do w) w live (omega arith) in
    (
      u,
      steps,
      empty_of u.queue (omega (arith, done)),
      empty_of u.waiting (omega (arith, done)),
      empty_of u.executing (omega (arith, done)),
      omega (arith, live'.tracked.bounded, done),
      λ i h apart.
          ends outcome slots i u live' done (ap (occurrences i) same ∙ apart) (kept i (inl h)),
    )
