-- ===== src/Worker/Stop.antt =====
-- What `stop` of the worker does, and what ends a task for good.
use ai_backend_api.Base.{
  ℕ, zero, suc, ◌<◌, ◌≡◌, refl, ◌∙◌, ap, Bool, true, false, Option, none, some, List, [], ◌∷◌,
  arith, Bool-cases, inl, inr,
}
use ai_backend_api.Base.Text.{Text, text_eq_iff}
use ai_backend_api.Base.Dict.{get, get-put}
use ai_backend_api.Worker.{
  TaskStatus, TaskInfo, Outcome, BackgroundWorker, worker_new, change, with_status, concluded,
  enqueue, start, stop, loop_round, taken, begin_execution, entered, conclude, is_member, release,
  released, Step, Steps, here, more, enqueues, starts, stops, loops, begins, concludes, releases,
}
use ai_backend_api.Worker.Invariant.{
  IsTracked, occurrences, pending_of, running_of, map_info, get-change, get-cancel_all_missed,
  get-cancel_all_hit, occurrences-erase, if_ind, begin_execution-runs, Step-IsTracked,
  Steps-IsTracked,
}

-- The task has ended, one way or another.
abbrev pub is_over : Option TaskInfo → Bool
is_over none = false
is_over (some info) = elim info.status [
  | TaskStatus.pending ↦ false
  | TaskStatus.running ↦ false
  | _ ↦ true
]

over_placed : (o : Option TaskInfo) → is_over o ≡ true → (pending_of o ≡ 0) × (running_of o ≡ 0)
over_placed o h = ground arith

enqueue-over :
    (w : BackgroundWorker) (id name i : Text)
    → get w.tasks id ≡ none
    → is_over (get w.tasks i) ≡ true
    → get (enqueue id name w).tasks i ≡ get w.tasks i
unfolding enqueue
enqueue-over w id name i new h = ground (
  arith,
  text_eq_iff id i,
  get-put w.tasks id (record { status = TaskStatus.pending; name = name; error = none }) i,
)

taken-tasks : (w : BackgroundWorker) (q : List Text) → (taken q w).tasks ≡ w.tasks
taken-tasks w [] = refl
taken-tasks w (k ∷ q) = refl

released-tasks : (w : BackgroundWorker) (n : ℕ) → (released n w).tasks ≡ w.tasks
released-tasks w zero = refl
released-tasks w (suc n) = refl

module _ {max_concurrent : ℕ} where
  entered-over :
      (w : BackgroundWorker) (q : List Text) (n : ℕ) (i : Text)
      → IsTracked max_concurrent w
      → w.waiting ≡ q
      → is_over (get w.tasks i) ≡ true
      → get (entered q n w).tasks i ≡ get w.tasks i
  unfolding occurrences change
  entered-over w [] n i v e h = refl
  entered-over w (k ∷ q) zero i v e h = refl
  entered-over w (k ∷ q) (suc n) i v e h = ground (
    arith,
    v.queued i,
    over_placed (get w.tasks i) h,
    ap (occurrences i) e,
    get-change (with_status TaskStatus.running) k w.tasks i,
  )

  conclude-over :
      (w : BackgroundWorker) (k : Text) (outcome : Outcome) (i : Text)
      → IsTracked max_concurrent w
      → is_over (get w.tasks i) ≡ true
      → get (conclude k outcome w).tasks i ≡ get w.tasks i
  unfolding conclude
  conclude-over w k outcome i v h = elim (Bool-cases (is_member k w.executing)) [
    | inl within ↦ rw within (
        ground (
          arith,
          v.executed i,
          over_placed (get w.tasks i) h,
          occurrences-erase i k w.executing within,
          get-change (concluded outcome) k w.tasks i,
        ))
    | inr outside ↦ rw outside refl
  ]

  stop-over :
      (w : BackgroundWorker) (i : Text)
      → IsTracked max_concurrent w
      → is_over (get w.tasks i) ≡ true
      → get (stop w).tasks i ≡ get w.tasks i
  unfolding stop
  stop-over w i v h =
      ground
        (arith, v.queued i, over_placed (get w.tasks i) h, get-cancel_all_missed w.queue w.tasks i)

  Step-over :
      {w u : BackgroundWorker} (i : Text)
      → IsTracked max_concurrent w
      → is_over (get w.tasks i) ≡ true
      → Step w u
      → get u.tasks i ≡ get w.tasks i
  unfolding start loop_round begin_execution release
  Step-over {w} i v h (enqueues id name new) = enqueue-over w id name i new h
  Step-over {w} i v h starts =
      if_ind (λ (u : BackgroundWorker). get u.tasks i ≡ get w.tasks i) w.is_running refl refl
  Step-over {w} i v h stops = stop-over w i v h
  Step-over {w} i v h loops =
      let P : BackgroundWorker → Type 0 = λ u. get u.tasks i ≡ get w.tasks i in
      if_ind P w.is_looping (if_ind P w.is_running (ap (λ d. get d i) (taken-tasks w w.queue)) refl)
        refl
  Step-over {w} i v h begins = entered-over w w.waiting w.slots i v refl h
  Step-over {w} i v h (concludes id outcome) = conclude-over w id outcome i v h
  Step-over {w} i v h releases = ap (λ d. get d i) (released-tasks w w.leaving)

  Steps-over :
      {w u : BackgroundWorker} (i : Text)
      → IsTracked max_concurrent w
      → is_over (get w.tasks i) ≡ true
      → Steps w u
      → IsTracked max_concurrent u × (get u.tasks i ≡ get w.tasks i)
  Steps-over i v h here = (v, refl)
  Steps-over i v h (more steps step) =
      let (t, same) = Steps-over i v h steps in
      (Step-IsTracked max_concurrent t step, Step-over i t (rw same h) step ∙ same)

-- Once a task of a worker has completed, failed or been cancelled, no later interleaving changes its
-- status, name or error.
pub Steps-final :
    (max_concurrent : ℕ) {w u : BackgroundWorker} (i : Text)
    → Steps (worker_new max_concurrent) w
    → is_over (get w.tasks i) ≡ true
    → Steps w u
    → get u.tasks i ≡ get w.tasks i
Steps-final max_concurrent i before h after =
    (Steps-over i (Steps-IsTracked max_concurrent before) h after).1

-- `stop` cancels exactly the tasks that are queued: any other entry stays as it is, so a task that
-- the loop has taken from the queue is not cancelled. It waits for no execution: what waits for the
-- semaphore or is executed is the same after it, and if a slot is free, the longest waiting task
-- still starts.
pub stop_lem :
    (max_concurrent : ℕ) {w : BackgroundWorker}
    → Steps (worker_new max_concurrent) w
    → ((i : Text)
        → 0 < occurrences i w.queue
        → get (stop w).tasks i ≡ map_info (with_status TaskStatus.cancelled) (get w.tasks i))
      × ((i : Text) → occurrences i w.queue ≡ 0 → get (stop w).tasks i ≡ get w.tasks i)
      × ((stop w).queue ≡ [])
      × ((stop w).waiting ≡ w.waiting)
      × ((stop w).executing ≡ w.executing)
      × ((k : Text) (waiting : List Text) (n : ℕ)
          → w.waiting ≡ k ∷ waiting
          → w.slots ≡ suc n
          → running_of (get (begin_execution (stop w)).tasks k) ≡ 1)
unfolding stop
stop_lem max_concurrent {w} steps = (
  λ i h. get-cancel_all_hit w.queue w.tasks i h,
  λ i h. get-cancel_all_missed w.queue w.tasks i h,
  refl,
  refl,
  refl,
  λ k waiting n e f.
      begin_execution-runs max_concurrent (stop w) k waiting n e f
        (Step-IsTracked max_concurrent (Steps-IsTracked max_concurrent steps) stops),
)
