-- ===== src/Server/Running.antt =====
-- server/server.go and task/task.go: the parameters of a task and the run of a task by `startTask`.
-- The decoding of JSON, the run of the cleaner and that of the analysis are arguments.
use redis_agent.Common.{
  ℕ, Bytes, List, [], ◌++◌, codes, Option, none, some, ◌⊎◌, inl, inr, not, if◌then◌else◌,
}
use redis_agent.Decimal.{format_int}
use redis_agent.Generate.{GenerateUserDataParam, generate_data}
use redis_agent.Task.{same_int, clean, statistic, generate, GenericTaskInfo}
use redis_agent.Server.{ParamDecoder, Run, returns}

pub record CleanTaskParam : Type 0 where
  pub cursor : ℕ
  pub user_name : Bytes

abbrev pub type_error : GenericTaskInfo → Bytes → Bytes
type_error t method =
    codes "Task type error: "
    ++ format_int t.task_type
    ++ codes ", you can't call this method "
    ++ method

-- `CleanTaskParam`: the map goes through JSON into the struct.
unfoldable pub clean_task_param :
    (List (Bytes × Bytes) → Bytes ⊎ CleanTaskParam) → GenericTaskInfo → Bytes ⊎ CleanTaskParam
clean_task_param decode t =
    if not (same_int t.task_type clean)
    then inl (type_error t (codes "CleanTaskParam"))
    else decode t.task_param

-- `TaskParamObj` after the decoding.
abbrev pub remembered :
    Bytes ⊎ GenerateUserDataParam → (Bytes ⊎ GenerateUserDataParam) × Option GenerateUserDataParam
remembered (inl err) = (inl err, none)
remembered (inr param) = (inr param, some param)

abbrev pub param_of :
    ParamDecoder
    → Option GenerateUserDataParam
    → GenericTaskInfo
    → (Bytes ⊎ GenerateUserDataParam) × Option GenerateUserDataParam
param_of decode (some param) t = (inr param, some param)
param_of decode none t = remembered (decode t.task_param)

-- `GenerateUserDataParam`, with `TaskParamObj` before and after it where it holds the parameters.
unfoldable pub generate_user_data_param :
    ParamDecoder
    → Option GenerateUserDataParam
    → GenericTaskInfo
    → (Bytes ⊎ GenerateUserDataParam) × Option GenerateUserDataParam
generate_user_data_param decode cached t =
    if not (same_int t.task_type generate)
    then (inl (type_error t (codes "generateUserDataParam")), cached)
    else param_of decode cached t

-- What a run does besides its end: the `Set` commands that it sends.
abbrev pub generated :
    (ℕ → Bytes) → (ℕ → Option Bytes) → Bytes ⊎ GenerateUserDataParam → List (Bytes × Bytes) × Run
generated values replies (inl err) = ([], returns (some err))
generated values replies (inr param) =
    let made = generate_data values replies param in (made.sent, returns made.err)

-- The `switch` of `startTask`. `checkParam` works on a copy of the task, so its `TaskParamObj` is
-- still empty here. For another type nothing is run.
unfoldable pub run_task :
    ParamDecoder
    → (GenericTaskInfo → Run)
    → Run
    → (ℕ → Bytes)
    → (ℕ → Option Bytes)
    → GenericTaskInfo
    → List (Bytes × Bytes) × Run
run_task decode clean_run statistic_run values replies t =
    if same_int t.task_type clean
    then ([], clean_run t)
    else if same_int t.task_type statistic
    then ([], statistic_run)
    else if same_int t.task_type generate
    then generated values replies (generate_user_data_param decode none t).0
    else ([], returns none)
