-- ===== src/Server.antt =====
-- server/server.go, server/result.go and the check of task/generate.go: the requests that create,
-- run and report tasks. The decoding of JSON and the run of a task are arguments.
pub mod Requests
pub mod Life
pub mod Middleware
pub mod Running
pub mod Generation
use redis_agent.Common.{
  ℕ, ◌==◌, ◌⊎◌, inl, inr, ◌&&◌, ◌||◌, ltb, Bool, true, false, not, if◌then◌else◌, Bytes, List, [],
  ◌∷◌, ◌++◌, codes, same_bytes, Option, none, some,
}
use redis_agent.Common.Int.{ℤ}
use redis_agent.Decimal.{format_int, parse_int}
use redis_agent.Generate.{GenerateUserDataParam, check_redis_type, Made, generate_data}
use redis_agent.Task.{
  same_int, clean, statistic, generate, GenericTaskInfo, Tasks, report, check_task_type,
  create_task, append_fail_log, append_suc_log, has_process_statistic_task,
}

-- `json.Unmarshal` of a task's parameters, with its error.
abbrev pub ParamDecoder : Type 0
ParamDecoder = List (Bytes × Bytes) → Bytes ⊎ GenerateUserDataParam

-- For a count out of range the code returns an error that is nil there.
unfoldable pub check_generate_param : Bytes ⊎ GenerateUserDataParam → Option Bytes
check_generate_param (inl err) = some err
check_generate_param (inr param) =
    if check_redis_type param
    then (if param.count == 0 || ltb 99999 param.count then none else none)
    else some (codes "redisType illegality")

abbrev pub ongoing_message : Bytes
ongoing_message =
    codes "there are already ongoing data analysis tasks in progress, refusing to submit new tasks"

-- The second test of `checkParam`.
unfoldable pub check_statistic : GenericTaskInfo → Tasks → Option Bytes
check_statistic t ts =
    if same_int t.task_type statistic && has_process_statistic_task ts
    then some ongoing_message
    else none

abbrev pub or_else : Option Bytes → Option Bytes → Option Bytes
or_else none next = next
or_else (some err) next = some err

unfoldable pub check_param : ParamDecoder → GenericTaskInfo → Tasks → Option Bytes
check_param decode t ts =
    or_else
      (if same_int t.task_type generate then check_generate_param (decode t.task_param) else none)
      (check_statistic t ts)

-- What a handler answers: `http.Error`, or a `CommonResult`.
pub data Response : Type 0 where
  bad_request : Bytes → Response
  unsupported_media_type : Bytes → Response
  fail_with_msg : Bytes → Response
  suc_with_msg : Bytes → Response
  suc_with_task : Option GenericTaskInfo → Response

abbrev pub created_message : Bytes
created_message = codes "succeeded in creating a task"

abbrev pub answer : Tasks × Option Bytes → Tasks × Response
answer (ts, none) = (ts, suc_with_msg created_message)
answer (ts, some err) = (ts, fail_with_msg err)

abbrev pub unless_refused : Option Bytes → Tasks → (Tasks → Tasks × Response) → Tasks × Response
unless_refused none ts next = next ts
unless_refused (some err) ts next = (ts, fail_with_msg err)

abbrev pub type_message : Bytes
type_message = codes "task Type must be 0/1/2"

-- `createTask` on a body that `json` has decoded, or its error; the clock readings are those of
-- `CreateTask`.
unfoldable pub create_task_request :
    ParamDecoder → ℕ → ℕ → Bytes → Bytes ⊎ GenericTaskInfo → Tasks → Tasks × Response
create_task_request decode now later time_str (inl err) ts = (ts, bad_request err)
create_task_request decode now later time_str (inr t) ts =
    if check_task_type t
    then unless_refused (check_param decode t ts) ts
        (λ ts'. answer (create_task now later time_str t ts'))
    else (ts, fail_with_msg type_message)

-- How the run of a task ends: it returns, or it panics.
pub data Run : Type 0 where
  returns : Option Bytes → Run
  panics : Bytes → Run

abbrev pub unique_identifier : GenericTaskInfo → Bytes
unique_identifier t = format_int t.task_id ++ (codes "-" ++ format_int t.task_type)

-- `startTask`: the deferred function's part.
unfoldable pub start_task : Bytes → Run → GenericTaskInfo → GenericTaskInfo
start_task time_str (returns none) t =
    append_suc_log time_str (codes "successful completion of task " ++ unique_identifier t) t
start_task time_str (returns (some err)) t = append_fail_log time_str err t
start_task time_str (panics ex) t = append_fail_log time_str (codes "task is panic " ++ ex) t

-- `reportProgress` on the path's variable.
abbrev pub report_of : Bytes → Tasks → Option ℤ → Response
report_of task_id ts none = bad_request (codes "parseInt taskId error: " ++ task_id)
report_of task_id ts (some k) = suc_with_task (report k ts)

unfoldable pub report_progress : Option Bytes → Tasks → Response
report_progress none ts = bad_request (codes "no taskId found in request")
report_progress (some task_id) ts = report_of task_id ts (parse_int task_id)

unfoldable pub server_status : Response
server_status = suc_with_msg (codes "OK")

-- `GetTaskList`: a write into the map that `var` leaves nil panics.
pub data TaskList : Type 0 where
  nil_map : TaskList
  nil_map_panic : TaskList

unfoldable pub get_task_list : Tasks → TaskList
get_task_list [] = nil_map
get_task_list (t ∷ ts) = nil_map_panic
