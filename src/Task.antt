-- ===== src/Task.antt =====
-- task/task.go: the tasks that the server has accepted, a Go map behind a lock. The map is an
-- association list with one pair for each id, in the order, which Go leaves open, of `range`. The
-- clock readings and the text of a clock reading are arguments.
pub mod Store
use redis_agent.Common.{
  ℕ, ◌==◌, ◌&&◌, if◌then◌else◌, not, Bool, true, false, Bytes, List, [], ◌∷◌, ◌++◌, codes, Option,
  none, some,
}
use redis_agent.Common.Int.{ℤ, pos, negsuc}
use redis_agent.Decimal.{format_int}

-- `==` on `int`.
abbrev pub same_int : ℤ → ℤ → Bool
same_int (pos m) (pos n) = m == n
same_int (pos m) (negsuc n) = false
same_int (negsuc m) (pos n) = false
same_int (negsuc m) (negsuc n) = m == n

abbrev pub progress : ℤ
progress = pos 1

abbrev pub suc_status : ℤ
suc_status = pos 2

abbrev pub fail : ℤ
fail = pos 3

abbrev pub clean : ℤ
clean = pos 0

abbrev pub statistic : ℤ
statistic = pos 1

abbrev pub generate : ℤ
generate = pos 2

-- `GenericTaskInfo`, without the parameter object that is decoded from `task_param`.
pub record GenericTaskInfo : Type 0 where
  pub task_id : ℤ
  pub task_type : ℤ
  pub task_param : List (Bytes × Bytes)
  pub status : ℤ
  pub start_time : ℕ
  pub last_scan_time : ℕ
  pub key_count : ℤ
  pub task_log : List Bytes

abbrev pub Tasks : Type 0
Tasks = List (ℤ × GenericTaskInfo)

-- `tasks[taskId]`, which is also `Report`.
unfoldable pub report : ℤ → Tasks → Option GenericTaskInfo
report k [] = none
report k ((j, t) ∷ ts) = if same_int j k then some t else report k ts

-- Whether `CheckTaskType` gives no error.
unfoldable pub check_task_type : GenericTaskInfo → Bool
check_task_type t =
    if not (same_int t.task_type clean)
      && (not (same_int t.task_type statistic) && not (same_int t.task_type generate))
    then false
    else true

abbrev pub format_log : Bytes → Bytes → Bytes
format_log time_str log = codes "[" ++ time_str ++ codes "] " ++ log

abbrev pub started : ℕ → ℕ → Bytes → GenericTaskInfo → GenericTaskInfo
started now later time_str t = record t {
  status = progress;
  start_time = now;
  last_scan_time = later;
  task_log = format_log time_str (codes "task starts") ∷ [];
}

abbrev pub exists_message : ℤ → Bytes
exists_message k = format_int k ++ codes " task is already exists, can't create again!"

-- The part of `CreateTask` behind the lookup.
abbrev pub create_if :
    Option GenericTaskInfo → ℕ → ℕ → Bytes → GenericTaskInfo → Tasks → Tasks × Option Bytes
create_if (some old) now later time_str t ts = (ts, some (exists_message t.task_id))
create_if none now later time_str t ts = ((t.task_id, started now later time_str t) ∷ ts, none)

-- `CreateTask`: the tasks after it, and its error.
unfoldable pub create_task : ℕ → ℕ → Bytes → GenericTaskInfo → Tasks → Tasks × Option Bytes
create_task now later time_str t ts = create_if (report t.task_id ts) now later time_str t ts

-- A write to the fields of the task that `tasks[taskId]` points to.
unfoldable pub update_task : ℤ → (GenericTaskInfo → GenericTaskInfo) → Tasks → Tasks
update_task k f [] = []
update_task k f ((j, t) ∷ ts) = if same_int j k then (j, f t) ∷ ts else (j, t) ∷ update_task k f ts

abbrev pub map_task :
    (GenericTaskInfo → GenericTaskInfo) → Option GenericTaskInfo → Option GenericTaskInfo
map_task f none = none
map_task f (some t) = some (f t)

unfoldable pub append_fail_log : Bytes → Bytes → GenericTaskInfo → GenericTaskInfo
append_fail_log time_str log t = record t {
  status = fail;
  task_log = t.task_log ++ format_log time_str log ∷ [];
}

unfoldable pub append_suc_log : Bytes → Bytes → GenericTaskInfo → GenericTaskInfo
append_suc_log time_str log t = record t {
  status = suc_status;
  task_log = t.task_log ++ format_log time_str log ∷ [];
}

unfoldable pub get_statistic_task_list : Tasks → Tasks
get_statistic_task_list [] = []
get_statistic_task_list ((k, t) ∷ ts) =
    if not (same_int t.task_type statistic)
    then get_statistic_task_list ts
    else (k, t) ∷ get_statistic_task_list ts

unfoldable pub has_process_statistic_task : Tasks → Bool
has_process_statistic_task [] = false
has_process_statistic_task ((k, t) ∷ ts) =
    if same_int t.task_type statistic && same_int t.status progress
    then true
    else has_process_statistic_task ts
