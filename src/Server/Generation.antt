-- ===== src/Server/Generation.antt =====
-- What becomes of a task that generates data.
use redis_agent.Common.{
  ℕ, Bytes, [], codes, same_bytes, Option, none, inr, true, false, ◌≡◌, refl, ◌∙◌,
}
use redis_agent.Generate.{GenerateUserDataParam, check_redis_type, generate_data}
use redis_agent.Task.{generate, suc_status, GenericTaskInfo, Tasks, append_suc_log}
use redis_agent.Server.{check_param, Run, returns, start_task}
use redis_agent.Server.Requests.{check_param_any_count}
use redis_agent.Server.Running.{generate_user_data_param, run_task}

module _ (param : GenerateUserDataParam) (clean_run : GenericTaskInfo → Run) (statistic_run : Run)
    (values : ℕ → Bytes) (replies : ℕ → Option Bytes) where
  run_task-generate :
      (t : GenericTaskInfo)
      → t.task_type ≡ generate
      → run_task (λ _. inr param) clean_run statistic_run values replies t ≡ (
        (generate_data values replies param).sent,
        returns (generate_data values replies param).err,
      )
  unfolding run_task generate_user_data_param
  run_task-generate t kind = rw kind refl

  -- A list, a hash, a set or a sorted set that is asked for passes the check of the parameters, the
  -- run of the task then sends no command, and the task is reported as a success.
  pub run_task-unwritten :
      (time_str : Bytes) (t : GenericTaskInfo) (ts : Tasks)
      → t.task_type ≡ generate
      → check_redis_type param ≡ true
      → same_bytes param.redis_type (codes "string") ≡ false
      → (check_param (λ _. inr param) t ts ≡ none)
        × ((run_task (λ _. inr param) clean_run statistic_run values replies t).0 ≡ [])
        × ((start_task time_str
              (run_task (λ _. inr param) clean_run statistic_run values replies t).1
              t).status
            ≡ suc_status)
  unfolding generate_data
  run_task-unwritten time_str t ts kind known other = (
    check_param_any_count param t ts kind ∙ rw known refl,
    rw (run_task-generate t kind, other) refl,
    rw (run_task-generate t kind, other) (unfold start_task append_suc_log in refl),
  )
