-- ===== src/Server/Life.antt =====
-- server/server.go and task/task.go: the handlers and the goroutines of the tasks, interleaved in
-- any order. `createTask` takes the lock once to check the parameters and once to create the task,
-- so another handler may come between; the goroutine of a task holds a pointer to the task of the
-- store, and writes its fields.
pub mod Kept
pub mod Bound
pub mod Stable
use redis_agent.Common.{
  ℕ, ◌+◌, ◌<◌, Bytes, List, [], ◌∷◌, ◌++◌, length, Option, none, some, ◌≡◌, true,
}
use redis_agent.Common.Int.{ℤ}
use redis_agent.Task.{GenericTaskInfo, Tasks, check_task_type, create_task, update_task}
use redis_agent.Server.{ParamDecoder, check_param, Run, start_task}

-- `checked` has the tasks of the handlers between `checkParam` and `CreateTask`, and `working` the
-- ids of the tasks whose goroutine has not returned.
pub record System : Type 0 where
  pub tasks : Tasks
  pub checked : List GenericTaskInfo
  pub working : List ℤ

-- Only a task that `CreateTask` has stored gets a goroutine.
abbrev pub with_worker : Option Bytes → ℤ → List ℤ → List ℤ
with_worker none k ks = k ∷ ks
with_worker (some err) k ks = ks

abbrev pub created : ℕ → ℕ → Bytes → GenericTaskInfo → List GenericTaskInfo → System → System
created now later time_str t others s =
    let r = create_task now later time_str t s.tasks in
    record { tasks = r.0; checked = others; working = with_worker r.1 t.task_id s.working }

-- `taskInfo.LastScanTime = time.Now()` in the loop of the cleaner.
abbrev pub scanned : ℕ → GenericTaskInfo → GenericTaskInfo
scanned now t = record t { last_scan_time = now }

-- No more than `handlers` requests are between their check and their creation at once. A request
-- that is refused changes nothing and has no step.
-- What is done under the lock is one step, so the lock has no state of its own. The run of a task is
-- the step `finish`, with any end; it may come at any time or never, as the work and its polls take
-- their time. A panic in a goroutine that the run has started itself ends the program, and has no
-- step.
pub data Step (decode : ParamDecoder) (handlers : ℕ) (s : System) : System → Type 0 where
  check :
      (t : GenericTaskInfo)
      → length s.checked < handlers
      → check_task_type t ≡ true
      → check_param decode t s.tasks ≡ none
      → Step decode handlers s
          (record { tasks = s.tasks; checked = t ∷ s.checked; working = s.working })
  create :
      (now later : ℕ) (time_str : Bytes) (before after : List GenericTaskInfo) (t : GenericTaskInfo)
      → s.checked ≡ before ++ t ∷ after
      → Step decode handlers s (created now later time_str t (before ++ after) s)
  scan :
      (now : ℕ) (before after : List ℤ) (k : ℤ)
      → s.working ≡ before ++ k ∷ after
      → Step decode handlers s (record {
        tasks = update_task k (scanned now) s.tasks;
        checked = s.checked;
        working = s.working;
      })
  finish :
      (time_str : Bytes) (run : Run) (before after : List ℤ) (k : ℤ)
      → s.working ≡ before ++ k ∷ after
      → Step decode handlers s (record {
        tasks = update_task k (start_task time_str run) s.tasks;
        checked = s.checked;
        working = before ++ after;
      })

-- `tasks` is empty when the server starts.
abbrev pub idle : System
idle = record { tasks = []; checked = []; working = [] }

-- The states that some steps lead to from the first one.
pub data Steps (decode : ParamDecoder) (handlers : ℕ) (s : System) : System → Type 0 where
  stay : Steps decode handlers s s
  then_step :
      {t u : System}
      → Steps decode handlers s t
      → Step decode handlers t u
      → Steps decode handlers s u
