-- ===== src/Worker.antt =====
-- app/infrastructure/queue/worker.py: the queue of tasks in the process. Every piece of code between
-- two awaits is one operation, so that a sequence of operations is an interleaving of the callers,
-- the loop and the executions. A task travels as its identifier; how its coroutine ends is the
-- outcome that its end takes. A coroutine that never ends is one that no step concludes.
pub mod Invariant
pub mod Stop
pub mod Drain
use ai_backend_api.Base.{
  ℕ, zero, suc, ◌≡◌, Bool, true, false, Option, none, some, List, [], ◌∷◌, ◌++◌, if◌then◌else◌,
}
use ai_backend_api.Base.Text.{Text, codes, text_eq}
use ai_backend_api.Base.Dict.{Dict, get, put}

pub data TaskStatus : Type 0 where
  pending running completed failed cancelled : TaskStatus

-- An entry of `_tasks`.
pub record TaskInfo : Type 0 where
  pub status : TaskStatus
  pub name : Text
  pub error : Option Text

-- `waiting` are the executions that wait for the semaphore, `executing` those inside of it with
-- their coroutine unfinished, and `leaving` counts those that have set the last status and still
-- hold the semaphore; `slots` is the semaphore's counter. `is_looping` says that `_worker_task` is
-- there and not done. `abandoned` are the tasks whose coroutine ended by a `CancelledError`: no
-- state of the class, but what the entries in `_tasks` have to be compared with.
pub record BackgroundWorker : Type 0 where
  pub queue : List Text
  pub slots : ℕ
  pub tasks : Dict TaskInfo
  pub is_running : Bool
  pub is_looping : Bool
  pub waiting : List Text
  pub executing : List Text
  pub leaving : ℕ
  pub abandoned : List Text

unfoldable pub worker_new : ℕ → BackgroundWorker
worker_new max_concurrent = record {
  queue = [];
  slots = max_concurrent;
  tasks = [];
  is_running = false;
  is_looping = false;
  waiting = [];
  executing = [];
  leaving = 0;
  abandoned = [];
}

-- The entry at its place: `self._tasks[task_id][…] = …`. An unknown identifier would be a KeyError;
-- every identifier that is queued or executed has an entry.
abbrev pub changed : (TaskInfo → TaskInfo) → Text → Option TaskInfo → Dict TaskInfo → Dict TaskInfo
changed f task_id none tasks = tasks
changed f task_id (some info) tasks = put tasks task_id (f info)

unfoldable pub change : (TaskInfo → TaskInfo) → Text → Dict TaskInfo → Dict TaskInfo
change f task_id tasks = changed f task_id (get tasks task_id) tasks

abbrev pub with_status : TaskStatus → TaskInfo → TaskInfo
with_status status info = record info { status = status }

-- `enqueue`, with the identifier that `uuid4` gives.
unfoldable pub enqueue : Text → Text → BackgroundWorker → BackgroundWorker
enqueue task_id task_name w = record w {
  tasks =
      put w.tasks task_id (record { status = TaskStatus.pending; name = task_name; error = none });
  queue = w.queue ++ (task_id ∷ []);
}

unfoldable pub start : BackgroundWorker → BackgroundWorker
start w = if w.is_running then w else record w { is_running = true; is_looping = true }

-- The loop of `stop` over what is queued.
unfoldable pub cancel_all : List Text → Dict TaskInfo → Dict TaskInfo
unfolding change
cancel_all [] tasks = tasks
cancel_all (task_id ∷ queue) tasks =
    cancel_all queue (change (with_status TaskStatus.cancelled) task_id tasks)

-- `stop`: the queued tasks are cancelled, and so is the loop, which ends.
unfoldable pub stop : BackgroundWorker → BackgroundWorker
unfolding cancel_all
stop w = record w {
  is_running = false;
  tasks = cancel_all w.queue w.tasks;
  queue = [];
  is_looping = false;
}

abbrev pub status_text : TaskStatus → Text
status_text TaskStatus.pending = codes "pending"
status_text TaskStatus.running = codes "running"
status_text TaskStatus.completed = codes "completed"
status_text TaskStatus.failed = codes "failed"
status_text TaskStatus.cancelled = codes "cancelled"

abbrev pub reported : Option TaskInfo → Text × Text × Option Text
reported none = (codes "unknown", codes "", none)
reported (some info) = (status_text info.status, info.name, info.error)

-- `get_status`: the status, the name and the error.
unfoldable pub get_status : Text → BackgroundWorker → Text × Text × Option Text
get_status task_id w = reported (get w.tasks task_id)

abbrev pub taken : List Text → BackgroundWorker → BackgroundWorker
taken [] w = w
taken (task_id ∷ queue) w = record w { queue = queue; waiting = w.waiting ++ (task_id ∷ []) }

-- One round of `_worker_loop`: while the worker runs, the first of the queue gets an execution; an
-- empty queue is a timeout, and a worker that was stopped ends the loop.
unfoldable pub loop_round : BackgroundWorker → BackgroundWorker
loop_round w =
    if w.is_looping
    then if w.is_running then taken w.queue w else record w { is_looping = false }
    else w

abbrev pub entered : List Text → ℕ → BackgroundWorker → BackgroundWorker
unfolding change
entered (task_id ∷ waiting) (suc slots) w = record w {
  waiting = waiting;
  slots = slots;
  executing = task_id ∷ w.executing;
  tasks = change (with_status TaskStatus.running) task_id w.tasks;
}
entered _ _ w = w

-- `_execute` up to the coroutine: the longest waiting execution enters the semaphore.
unfoldable pub begin_execution : BackgroundWorker → BackgroundWorker
unfolding change
begin_execution w = entered w.waiting w.slots w

-- The end of a coroutine: it returned, raised an `Exception` with this text, or a `CancelledError`.
pub data Outcome : Type 0 where
  returned : Outcome
  raised : (text : Text) → Outcome
  cancelled : Outcome

-- What the end of the coroutine writes. `except Exception` does not catch a `CancelledError`, which
-- leaves the semaphore with the entry as it is.
abbrev pub concluded : Outcome → TaskInfo → TaskInfo
concluded Outcome.returned info = record info { status = TaskStatus.completed }
concluded (Outcome.raised text) info = record info { status = TaskStatus.failed; error = some text }
concluded Outcome.cancelled info = info

abbrev pub left_behind : Outcome → Text → List Text → List Text
left_behind Outcome.cancelled task_id abandoned = task_id ∷ abandoned
left_behind _ task_id abandoned = abandoned

-- The first occurrence removed.
unfoldable pub erase : Text → List Text → List Text
erase id [] = []
erase id (x ∷ xs) = let rest = erase id xs in if text_eq id x then xs else x ∷ rest

unfoldable pub is_member : Text → List Text → Bool
is_member id [] = false
is_member id (x ∷ xs) = if text_eq id x then true else is_member id xs

-- `_execute` from the coroutine's end to the log line behind the last status.
unfoldable pub conclude : Text → Outcome → BackgroundWorker → BackgroundWorker
unfolding change erase is_member
conclude task_id outcome w =
    if is_member task_id w.executing
    then record w {
      executing = erase task_id w.executing;
      leaving = suc w.leaving;
      abandoned = left_behind outcome task_id w.abandoned;
      tasks = change (concluded outcome) task_id w.tasks;
    }
    else w

abbrev pub released : ℕ → BackgroundWorker → BackgroundWorker
released zero w = w
released (suc leaving) w = record w { leaving = leaving; slots = suc w.slots }

-- The end of `async with self._semaphore`.
unfoldable pub release : BackgroundWorker → BackgroundWorker
release w = released w.leaving w

-- The interleavings: whoever comes next makes one operation. `uuid4` gives a new identifier.
pub data Step (w : BackgroundWorker) : BackgroundWorker → Type 0 where
  enqueues : (id name : Text) → get w.tasks id ≡ none → Step w (enqueue id name w)
  starts : Step w (start w)
  stops : Step w (stop w)
  loops : Step w (loop_round w)
  begins : Step w (begin_execution w)
  concludes : (id : Text) (outcome : Outcome) → Step w (conclude id outcome w)
  releases : Step w (release w)

pub data Steps (w : BackgroundWorker) : BackgroundWorker → Type 0 where
  here : Steps w w
  more : {v u : BackgroundWorker} → Steps w v → Step v u → Steps w u
