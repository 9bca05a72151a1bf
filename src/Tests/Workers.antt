-- ===== src/Tests/Workers.antt =====
-- Examples on the background worker: one slot, and tasks that wait for it.
use ai_backend_api.Base.{
  ℕ, suc, true, false, ◌+◌, ◌<◌, ◌≡◌, refl, arith, Option, none, some, List, [], ◌∷◌,
}
use ai_backend_api.Base.Text.{Text, codes, text_eq}
use ai_backend_api.Base.Dict.{get, put}
use ai_backend_api.Worker.{
  TaskStatus, Outcome, BackgroundWorker, worker_new, enqueue, start, stop, loop_round,
  begin_execution, conclude, release, with_status, Steps, here, more, enqueues, starts, stops,
  loops, begins, concludes, releases,
}
use ai_backend_api.Worker.Invariant.{
  IsTracked, Steps-IsTracked, occurrences, pending_of, running_of, map_info,
}
use ai_backend_api.Worker.Stop.{is_over, Steps-final, stop_lem}
use ai_backend_api.Worker.Drain.{Steps-drain, end_status, status_of}

abbrev fails_b : Text → Option Text
fails_b task_id = elim (text_eq (codes "b") task_id) [ true ↦ some (codes "no") | false ↦ none ]

-- Tasks "a" and "b" are enqueued and taken, and "a" is executed.
abbrev with_a : BackgroundWorker
with_a = enqueue (codes "a") (codes "first") (worker_new 1)

abbrev with_b : BackgroundWorker
with_b = enqueue (codes "b") (codes "second") with_a

abbrev taking : BackgroundWorker
taking = begin_execution (loop_round (loop_round (start with_b)))

a_is_new : get (worker_new 1).tasks (codes "a") ≡ none
unfolding worker_new get
a_is_new = refl

b_is_new : get with_a.tasks (codes "b") ≡ none
unfolding worker_new enqueue get put
b_is_new = refl

taking-Steps : Steps (worker_new 1) taking
taking-Steps =
    more
      (more
        (more
          (more
            (more (more here (enqueues (codes "a") (codes "first") a_is_new))
              (enqueues (codes "b") (codes "second") b_is_new))
            starts)
          loops)
        loops)
      begins

Steps-IsTracked_example : IsTracked 1 taking
Steps-IsTracked_example = Steps-IsTracked 1 taking-Steps

abbrev ended : BackgroundWorker
ended = conclude (codes "a") (Outcome.raised (codes "broken")) taking

ended-over : is_over (get ended.tasks (codes "a")) ≡ true
unfolding worker_new enqueue start loop_round begin_execution conclude get put
ended-over = refl

Steps-final_example : get (stop (release ended)).tasks (codes "a") ≡ get ended.tasks (codes "a")
Steps-final_example =
    Steps-final 1 (codes "a")
      (more taking-Steps (concludes (codes "a") (Outcome.raised (codes "broken")))) ended-over
      (more (more here releases) stops)

-- "a" is still queued when the worker is stopped.
queued_a : 0 < occurrences (codes "a") with_a.queue
unfolding worker_new enqueue occurrences
queued_a = omega arith

stop_lem_example :
    ((i : Text)
      → 0 < occurrences i with_a.queue
      → get (stop with_a).tasks i
        ≡ map_info (with_status TaskStatus.cancelled) (get with_a.tasks i))
    × ((i : Text) → occurrences i with_a.queue ≡ 0 → get (stop with_a).tasks i ≡ get with_a.tasks i)
    × ((stop with_a).queue ≡ [])
    × ((stop with_a).waiting ≡ with_a.waiting)
    × ((stop with_a).executing ≡ with_a.executing)
    × ((k : Text) (waiting : List Text) (n : ℕ)
        → with_a.waiting ≡ k ∷ waiting
        → with_a.slots ≡ suc n
        → running_of (get (begin_execution (stop with_a)).tasks k) ≡ 1)
stop_lem_example = stop_lem 1 (more here (enqueues (codes "a") (codes "first") a_is_new))

is_running_taking : taking.is_running ≡ true
unfolding worker_new enqueue start loop_round begin_execution get put
is_running_taking = refl

is_looping_taking : taking.is_looping ≡ true
unfolding worker_new enqueue start loop_round begin_execution get put
is_looping_taking = refl

Steps-drain_example :
    (u : BackgroundWorker) × Steps taking u
    × (u.queue ≡ [])
    × (u.waiting ≡ [])
    × (u.executing ≡ [])
    × (u.slots ≡ 1)
    × ((i : Text)
        → 0 < pending_of (get taking.tasks i) + running_of (get taking.tasks i)
        → occurrences i taking.abandoned ≡ 0
        → status_of (get u.tasks i) ≡ some (end_status (fails_b i)))
Steps-drain_example = Steps-drain fails_b 0 taking-Steps is_running_taking is_looping_taking
