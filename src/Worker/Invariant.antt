-- ===== src/Worker/Invariant.antt =====
-- Where the tasks of a worker are, in every interleaving.
use ai_backend_api.Base.{
  ℕ, zero, suc, ◌+◌, ◌<◌, ◌≡◌, refl, ap, Bool, true, false, Option, none, some, List, [], ◌∷◌, ◌++◌,
  if◌then◌else◌, arith, length, Bool-cases, ◌⊎◌, inl, inr,
}
use ai_backend_api.Base.Text.{Text, text_eq, text_eq_iff}
use ai_backend_api.Base.Dict.{Dict, get, get-put}
use ai_backend_api.Worker.{
  TaskStatus, TaskInfo, Outcome, BackgroundWorker, worker_new, change, changed, with_status,
  concluded, enqueue, start, stop, cancel_all, loop_round, taken, begin_execution, entered,
  conclude, erase, is_member, release, released, Step, Steps, here, more, enqueues, starts, stops,
  loops, begins, concludes, releases,
}

unfoldable pub occurrences : Text → List Text → ℕ
occurrences i [] = 0
occurrences i (x ∷ xs) = let rest = occurrences i xs in if text_eq x i then suc rest else rest

abbrev pub pending_of : Option TaskInfo → ℕ
pending_of none = 0
pending_of (some info) = elim info.status [ TaskStatus.pending ↦ 1 | _ ↦ 0 ]

abbrev pub running_of : Option TaskInfo → ℕ
running_of none = 0
running_of (some info) = elim info.status [ TaskStatus.running ↦ 1 | _ ↦ 0 ]

-- The slots taken are those of the executions; a task is pending exactly while it is queued or
-- waits, and running exactly while it is executed or after a cancellation, once each.
pub record IsTracked (max_concurrent : ℕ) (w : BackgroundWorker) : Type 0 where
  pub bounded : w.slots + length w.executing + w.leaving ≡ max_concurrent
  pub queued :
      (i : Text) → occurrences i w.queue + occurrences i w.waiting ≡ pending_of (get w.tasks i)
  pub executed :
      (i : Text)
      → occurrences i w.executing + occurrences i w.abandoned ≡ running_of (get w.tasks i)

pub if_ind : {A : Type 0} (P : A → Type 0) (b : Bool) {x y : A} → P x → P y → P (if b then x else y)
if_ind P true h k = h
if_ind P false h k = k

occurrences-append :
    (i : Text) (xs ys : List Text) → occurrences i (xs ++ ys) ≡ occurrences i xs + occurrences i ys
unfolding occurrences
occurrences-append i [] ys = omega arith
occurrences-append i (x ∷ xs) ys = ground (arith, occurrences-append i xs ys)

-- What a change of one entry leaves under any identifier.
abbrev pub map_info : (TaskInfo → TaskInfo) → Option TaskInfo → Option TaskInfo
map_info f none = none
map_info f (some info) = some (f info)

changed-get :
    (f : TaskInfo → TaskInfo) (k : Text) (o : Option TaskInfo) (d : Dict TaskInfo) (i : Text)
    → get d k ≡ o
    → get (changed f k o d) i ≡ (if text_eq k i then map_info f (get d i) else get d i)
changed-get f k none d i e = ground (arith, text_eq_iff k i)
changed-get f k (some info) d i e = ground (arith, text_eq_iff k i, get-put d k (f info) i)

pub get-change :
    (f : TaskInfo → TaskInfo) (k : Text) (d : Dict TaskInfo) (i : Text)
    → get (change f k d) i ≡ (if text_eq k i then map_info f (get d i) else get d i)
unfolding change
get-change f k d i = changed-get f k (get d k) d i refl

pub occurrences-erase :
    (i k : Text) (xs : List Text)
    → is_member k xs ≡ true
    → occurrences i xs
      ≡ (if text_eq k i then suc (occurrences i (erase k xs)) else occurrences i (erase k xs))
unfolding occurrences erase is_member
occurrences-erase i k [] h = absurd (cc)
occurrences-erase i k (x ∷ xs) h =
    ground (arith, text_eq_iff k x, text_eq_iff k i, text_eq_iff x i, occurrences-erase i k xs)

pub length-erase :
    (k : Text) (xs : List Text) → is_member k xs ≡ true → length xs ≡ suc (length (erase k xs))
unfolding erase is_member
length-erase k [] h = absurd (cc)
length-erase k (x ∷ xs) h = ground (arith, length-erase k xs)

pub get-cancel_all_missed :
    (q : List Text) (d : Dict TaskInfo) (i : Text)
    → occurrences i q ≡ 0
    → get (cancel_all q d) i ≡ get d i
unfolding cancel_all occurrences
get-cancel_all_missed [] d i h = refl
get-cancel_all_missed (k ∷ q) d i h =
    let c = with_status TaskStatus.cancelled in
    ground (arith, get-cancel_all_missed q (change c k d) i, get-change c k d i)

pub get-cancel_all_hit :
    (q : List Text) (d : Dict TaskInfo) (i : Text)
    → 0 < occurrences i q
    → get (cancel_all q d) i ≡ map_info (with_status TaskStatus.cancelled) (get d i)
unfolding cancel_all occurrences
get-cancel_all_hit [] d i h = absurd (omega arith)
get-cancel_all_hit (k ∷ q) d i h =
    let c = with_status TaskStatus.cancelled in
    ground (
      arith,
      get-cancel_all_hit q (change c k d) i,
      get-cancel_all_missed q (change c k d) i,
      get-change c k d i,
    )

Outcome-cases :
    (o : Outcome)
    → (o ≡ Outcome.returned)
      ⊎ (((text : Text) × (o ≡ Outcome.raised text)) ⊎ (o ≡ Outcome.cancelled))
Outcome-cases Outcome.returned = inl refl
Outcome-cases (Outcome.raised text) = inr (inl (text, refl))
Outcome-cases Outcome.cancelled = inr (inr refl)

module _ (max_concurrent : ℕ) where
  worker_new-IsTracked : IsTracked max_concurrent (worker_new max_concurrent)
  unfolding worker_new occurrences get
  worker_new-IsTracked = record { bounded = omega arith; queued = λ i. refl; executed = λ i. refl }

  enqueue-IsTracked :
      (w : BackgroundWorker) (id name : Text)
      → get w.tasks id ≡ none
      → IsTracked max_concurrent w
      → IsTracked max_concurrent (enqueue id name w)
  unfolding enqueue occurrences
  enqueue-IsTracked w id name new v = record {
    bounded = v.bounded;
    queued = λ i. ground (
      arith,
      text_eq_iff id i,
      get-put w.tasks id (record { status = TaskStatus.pending; name = name; error = none }) i,
      occurrences-append i w.queue (id ∷ []),
      v.queued i,
    );
    executed = λ i. ground (
      arith,
      text_eq_iff id i,
      get-put w.tasks id (record { status = TaskStatus.pending; name = name; error = none }) i,
      v.executed i,
    );
  }

  taken-IsTracked :
      (w : BackgroundWorker) (q : List Text)
      → w.queue ≡ q
      → IsTracked max_concurrent w
      → IsTracked max_concurrent (taken q w)
  unfolding occurrences
  taken-IsTracked w [] e v = v
  taken-IsTracked w (k ∷ q) e v = record {
    bounded = v.bounded;
    queued = λ i.
        ground (arith, occurrences-append i w.waiting (k ∷ []), v.queued i, ap (occurrences i) e);
    executed = v.executed;
  }

  entered-IsTracked :
      (w : BackgroundWorker) (q : List Text) (n : ℕ)
      → w.waiting ≡ q
      → w.slots ≡ n
      → IsTracked max_concurrent w
      → IsTracked max_concurrent (entered q n w)
  unfolding occurrences change
  entered-IsTracked w [] n e f v = v
  entered-IsTracked w (k ∷ q) zero e f v = v
  entered-IsTracked w (k ∷ q) (suc n) e f v = record {
    bounded = omega (arith, v.bounded, f);
    queued = λ i. ground (
      arith,
      v.queued i,
      ap (occurrences i) e,
      get-change (with_status TaskStatus.running) k w.tasks i,
    );
    executed = λ i. ground (
      arith,
      v.queued i,
      v.executed i,
      ap (occurrences i) e,
      get-change (with_status TaskStatus.running) k w.tasks i,
    );
  }

  entered-runs :
      (w : BackgroundWorker) (k : Text) (q q' : List Text) (n n' : ℕ)
      → w.waiting ≡ k ∷ q
      → w.slots ≡ suc n
      → w.waiting ≡ q'
      → w.slots ≡ n'
      → IsTracked max_concurrent w
      → running_of (get (entered q' n' w).tasks k) ≡ 1
  unfolding occurrences change
  entered-runs w k q [] n n' e f e' f' v = absurd (cc)
  entered-runs w k q (k' ∷ q') n zero e f e' f' v = absurd (omega arith)
  entered-runs w k q (k' ∷ q') n (suc n') e f e' f' v = ground (
    arith,
    v.queued k,
    ap (occurrences k) e,
    text_eq_iff k k,
    get-change (with_status TaskStatus.running) k' w.tasks k,
  )

  -- The longest waiting task starts where a slot is free.
  pub begin_execution-runs :
      (w : BackgroundWorker) (k : Text) (q : List Text) (n : ℕ)
      → w.waiting ≡ k ∷ q
      → w.slots ≡ suc n
      → IsTracked max_concurrent w
      → running_of (get (begin_execution w).tasks k) ≡ 1
  unfolding begin_execution
  begin_execution-runs w k q n e f v = entered-runs w k q w.waiting n w.slots e f refl refl v

  conclude-IsTracked :
      (w : BackgroundWorker) (k : Text) (outcome : Outcome)
      → IsTracked max_concurrent w
      → IsTracked max_concurrent (conclude k outcome w)
  unfolding conclude occurrences
  conclude-IsTracked w k outcome v = elim (Bool-cases (is_member k w.executing)) [
    | inl within ↦ rw within (record {
      bounded = omega (arith, v.bounded, length-erase k w.executing within);
      queued = λ i. ground (
        arith,
        v.queued i,
        v.executed i,
        occurrences-erase i k w.executing within,
        get-change (concluded outcome) k w.tasks i,
        Outcome-cases outcome,
      );
      executed = λ i. ground (
        arith,
        v.queued i,
        v.executed i,
        occurrences-erase i k w.executing within,
        get-change (concluded outcome) k w.tasks i,
        Outcome-cases outcome,
      );
    })
    | inr outside ↦ rw outside v
  ]

  released-IsTracked :
      (w : BackgroundWorker) (n : ℕ)
      → w.leaving ≡ n
      → IsTracked max_concurrent w
      → IsTracked max_concurrent (released n w)
  released-IsTracked w zero e v = v
  released-IsTracked w (suc n) e v = record {
    bounded = omega (arith, v.bounded, e);
    queued = v.queued;
    executed = v.executed;
  }

  stop-IsTracked :
      (w : BackgroundWorker) → IsTracked max_concurrent w → IsTracked max_concurrent (stop w)
  unfolding stop occurrences
  stop-IsTracked w v = record {
    bounded = v.bounded;
    queued = λ i. ground (
      arith,
      v.queued i,
      get-cancel_all_missed w.queue w.tasks i,
      get-cancel_all_hit w.queue w.tasks i,
    );
    executed = λ i. ground (
      arith,
      v.queued i,
      v.executed i,
      get-cancel_all_missed w.queue w.tasks i,
      get-cancel_all_hit w.queue w.tasks i,
    );
  }

  pub Step-IsTracked :
      {w u : BackgroundWorker} → IsTracked max_concurrent w → Step w u → IsTracked max_concurrent u
  unfolding start loop_round begin_execution release
  Step-IsTracked {w} v (enqueues id name new) = enqueue-IsTracked w id name new v
  Step-IsTracked {w} v starts =
      if_ind (IsTracked max_concurrent) w.is_running v
        (record { bounded = v.bounded; queued = v.queued; executed = v.executed })
  Step-IsTracked {w} v stops = stop-IsTracked w v
  Step-IsTracked {w} v loops =
      if_ind (IsTracked max_concurrent) w.is_looping
        (if_ind (IsTracked max_concurrent) w.is_running (taken-IsTracked w w.queue refl v)
          (record { bounded = v.bounded; queued = v.queued; executed = v.executed }))
        v
  Step-IsTracked {w} v begins = entered-IsTracked w w.waiting w.slots refl refl v
  Step-IsTracked {w} v (concludes id outcome) = conclude-IsTracked w id outcome v
  Step-IsTracked {w} v releases = released-IsTracked w w.leaving refl v

  -- In every interleaving: at most `max_concurrent` executions are inside of the semaphore, a task
  -- is pending exactly while it is queued or waits for the semaphore, and running exactly while its
  -- coroutine is executed or after the coroutine has ended by a `CancelledError`, which frees its
  -- slot and leaves its entry; and it is in one such place once.
  pub Steps-IsTracked :
      {w : BackgroundWorker} → Steps (worker_new max_concurrent) w → IsTracked max_concurrent w
  Steps-IsTracked here = worker_new-IsTracked
  Steps-IsTracked (more steps step) = Step-IsTracked (Steps-IsTracked steps) step
