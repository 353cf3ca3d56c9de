-- ===== src/Tests/Task.antt =====
-- The task store: the theorems at small inputs.
use redis_agent.Common.{ℕ, ◌<◌, [], ◌∷◌, none, some, true, ◌≡◌, ◌≢◌, ◌⊎◌, inl, inr, refl, ap, arith}
use redis_agent.Common.Int.{ℤ, pos, pos_part}
use redis_agent.Task.{
  statistic, GenericTaskInfo, Tasks, report, started, exists_message, create_task,
  has_process_statistic_task,
}
use redis_agent.Server.{
  ParamDecoder, check_param, create_task_request, fail_with_msg, ongoing_message,
}
use redis_agent.Server.Requests.{create_task_request_race}
use redis_agent.Task.Store.{running, create_task_lem, create_task_race}

-- A statistic with that id, as it comes in.
abbrev pub statistic_task : ℕ → GenericTaskInfo
statistic_task n = record {
  task_id = pos n;
  task_type = statistic;
  task_param = [];
  status = pos 0;
  start_time = 0;
  last_scan_time = 0;
  key_count = pos 0;
  task_log = [];
}

abbrev one_task : Tasks
one_task = (pos 7, statistic_task 7) ∷ []

create_task_lem_test :
    ((old : GenericTaskInfo) × (report (pos 7) one_task ≡ some old)
      × (create_task 1 2 [] (statistic_task 7) one_task
          ≡ (one_task, some (exists_message (pos 7)))))
    ⊎ ((report (pos 7) one_task ≡ none)
        × ((create_task 1 2 [] (statistic_task 7) one_task).1 ≡ none)
        × (report (pos 7) (create_task 1 2 [] (statistic_task 7) one_task).0
            ≡ some (started 1 2 [] (statistic_task 7)))
        × ((k : ℤ)
            → (k ≡ pos 7)
              ⊎ (report k (create_task 1 2 [] (statistic_task 7) one_task).0 ≡ report k one_task)))
create_task_lem_test = create_task_lem 1 2 [] (statistic_task 7) one_task

later_id : (m n : ℕ) → m < n → pos n ≢ pos m
later_id m n h e = let same : n ≡ m = ap pos_part e in omega arith

create_task_race_test :
    (has_process_statistic_task (create_task 1 2 [] (statistic_task 7) []).0 ≡ true)
    × (running
          (create_task 1 2 [] (statistic_task 8) (create_task 1 2 [] (statistic_task 7) []).0).0
        ≡ 2)
unfolding report has_process_statistic_task
create_task_race_test =
    create_task_race 1 2 [] (statistic_task 7) (statistic_task 8) [] refl refl refl refl
      (later_id 7 8 (omega arith)) refl

abbrev no_data : ParamDecoder
no_data ps = inl []

abbrev after_seven : Tasks
after_seven = (create_task_request no_data 1 2 [] (inr (statistic_task 7)) []).0

create_task_request_race_example :
    (create_task_request no_data 1 2 [] (inr (statistic_task 8)) after_seven
      ≡ (after_seven, fail_with_msg ongoing_message))
    × (check_param no_data (statistic_task 7) [] ≡ none)
    × (check_param no_data (statistic_task 8) [] ≡ none)
    × (running
          (create_task 1 2 [] (statistic_task 8) (create_task 1 2 [] (statistic_task 7) []).0).0
        ≡ 2)
unfolding report has_process_statistic_task
create_task_request_race_example =
    create_task_request_race no_data 1 2 [] (statistic_task 7) (statistic_task 8) [] refl refl refl
      refl (later_id 7 8 (omega arith)) refl
