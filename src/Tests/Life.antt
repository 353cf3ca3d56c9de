-- ===== src/Tests/Life.antt =====
-- Handlers and goroutines in one order of their steps: the theorems at small inputs.
use redis_agent.Common.{◌+◌, ◌≤◌, [], ◌∷◌, codes, none, some, ◌≡◌, inl, inr, refl, arith, weigh}
use redis_agent.Common.Int.{pos}
use redis_agent.Task.{
  check_task_type, has_process_statistic_task, create_task, update_task, append_suc_log, generate,
  suc_status, GenericTaskInfo, report, started,
}
use redis_agent.Task.Store.{running}
use redis_agent.Generate.{GenerateUserDataParam, check_redis_type}
use redis_agent.Server.{ParamDecoder, check_param, check_statistic, returns, panics, start_task}
use redis_agent.Server.Running.{run_task}
use redis_agent.Server.Generation.{run_task-unwritten}
use redis_agent.Server.Life.{System, check, create, finish, Steps, stay, then_step, idle}
use redis_agent.Server.Life.Kept.{Kept, Steps-Kept}
use redis_agent.Server.Life.Bound.{is_statistic, Steps-wanted}
use redis_agent.Server.Life.Stable.{Steps-stable}
use redis_agent.Tests.Task.{statistic_task}

abbrev refuse_all : ParamDecoder
refuse_all ps = inl (codes "no")

-- Both requests are checked before either task is created.
abbrev both_checked : System
both_checked = record {
  tasks = [];
  checked = statistic_task 8 ∷ statistic_task 7 ∷ [];
  working = [];
}

both_checked_reached : Steps refuse_all 2 idle both_checked
unfolding check_task_type check_param check_statistic has_process_statistic_task
both_checked_reached =
    then_step (then_step stay (check (statistic_task 7) (omega arith) refl refl))
      (check (statistic_task 8) (omega arith) refl refl)

-- Then both are created, so two statistics are in progress at once.
abbrev both_working : System
both_working = record {
  tasks =
      (pos 7, started 1 2 [] (statistic_task 7)) ∷ (pos 8, started 1 2 [] (statistic_task 8)) ∷ [];
  checked = [];
  working = pos 7 ∷ pos 8 ∷ [];
}

both_working_reached : Steps refuse_all 2 idle both_working
unfolding create_task report
both_working_reached =
    then_step
      (then_step both_checked_reached
        (create 1 2 [] [] (statistic_task 7 ∷ []) (statistic_task 8) refl))
      (create 1 2 [] [] [] (statistic_task 7) refl)

Steps-wanted_example : running both_working.tasks + weigh is_statistic both_working.checked ≤ 2
Steps-wanted_example = Steps-wanted refuse_all 2 both_working both_working_reached

Steps-Kept_example : Kept both_working
Steps-Kept_example = Steps-Kept refuse_all 2 both_working both_working_reached

-- The task 7 has returned.
abbrev seven_done : System
seven_done = record {
  tasks =
      (pos 7, start_task (codes "t") (returns none) (started 1 2 [] (statistic_task 7)))
      ∷ (pos 8, started 1 2 [] (statistic_task 8))
      ∷ [];
  checked = [];
  working = pos 8 ∷ [];
}

seven_done_reached : Steps refuse_all 2 idle seven_done
unfolding update_task
seven_done_reached =
    then_step both_working_reached (finish (codes "t") (returns none) [] (pos 8 ∷ []) (pos 7) refl)

-- The task 8 has panicked after it.
abbrev both_done : System
both_done = record {
  tasks =
      (pos 7, start_task (codes "t") (returns none) (started 1 2 [] (statistic_task 7)))
      ∷ (pos 8, start_task (codes "t") (panics (codes "x")) (started 1 2 [] (statistic_task 8)))
      ∷ [];
  checked = [];
  working = [];
}

Steps-stable_example :
    report (pos 7) both_done.tasks
    ≡ some (start_task (codes "t") (returns none) (started 1 2 [] (statistic_task 7)))
unfolding update_task report start_task append_suc_log
Steps-stable_example =
    Steps-stable refuse_all 2 seven_done both_done (pos 7) _ seven_done_reached
      (then_step stay (finish (codes "t") (panics (codes "x")) [] [] (pos 8) refl)) refl (λ e. cc)

abbrev list_param : GenerateUserDataParam
list_param = record { user_name = codes "u"; redis_type = codes "list"; count = 3 }

abbrev list_task : GenericTaskInfo
list_task = record {
  task_id = pos 4;
  task_type = generate;
  task_param = [];
  status = pos 0;
  start_time = 0;
  last_scan_time = 0;
  key_count = pos 0;
  task_log = [];
}

run_task-unwritten_example :
    (check_param (λ _. inr list_param) list_task [] ≡ none)
    × ((run_task
          (λ _. inr list_param)
          (λ t. returns none)
          (returns none)
          (λ i. [])
          (λ i. none)
          list_task).0
        ≡ [])
    × ((start_task
          (codes "t")
          (run_task
            (λ _. inr list_param)
            (λ t. returns none)
            (returns none)
            (λ i. [])
            (λ i. none)
            list_task).1
          list_task).status
        ≡ suc_status)
unfolding check_redis_type
run_task-unwritten_example =
    run_task-unwritten list_param (λ t. returns none) (returns none) (λ i. []) (λ i. none)
      (codes "t") list_task [] refl refl refl
