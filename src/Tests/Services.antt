-- ===== src/Tests/Services.antt =====
-- The cleaner, the analysis, the server and the checksum: the theorems at small inputs.
use redis_agent.Common.{
  ℕ, ◌^◌, ◌≤◌, ◌%◌, ◌⊎◌, inl, inr, Bool, true, false, same_bytes, Bytes, List, [], ◌∷◌, length,
  codes, Option, none, some, ◌≡◌, ◌≢◌, refl, arith,
}
use redis_agent.Common.Int.{pos}
use redis_agent.Cleaner.{ScanReply, page, start_at, cleaned, clean}
use redis_agent.Cleaner.Batches.{After, clean-After}
use redis_agent.Cleaner.Counts.{count_batches, count_batches-clean, clean_ends}
use redis_agent.Info.Laws.{Line, heading, property, put_lines}
use redis_agent.Loader.{Entry}
use redis_agent.Analysis.{FloatShare, add_entries, dumped, dump_rdb, statistic}
use redis_agent.Analysis.Sums.{
  row_of, sum_for, one_key, one_expiring, overhead_of, add_entries-sum_for,
}
use redis_agent.Analysis.Dump.{polls_then, analysed, dump_rdb-polls, statistic_guard, EndedWell}
use redis_agent.Info.{parse_info_prop}
use redis_agent.Task as Task
use redis_agent.Task.{GenericTaskInfo, started}
use redis_agent.Task.Store.{running}
use redis_agent.Generate.{GenerateUserDataParam, check_redis_type}
use redis_agent.Server.{
  ParamDecoder, check_param, create_task_request, suc_with_msg, created_message, returns, panics,
  start_task,
}
use redis_agent.Server.Requests.{
  Created, create_task_request_lem, running-create_task_request, start_task_lem,
  check_param_any_count,
}
use redis_agent.Crc64.{update, new_digest, calc_crc64}
use redis_agent.Crc64.Checks.{crc64_reference, calc_crc64-crc64_reference}

-- A page with a key twice and another key, then the last page.
abbrev two_pages : List ScanReply
two_pages =
    page
      (record { key = codes "u:1"; drawn = 0 }
        ∷ record { key = codes "u:2"; drawn = 0 }
        ∷ record { key = codes "u:1"; drawn = 0 }
        ∷ [])
      5
    ∷ page [] 0
    ∷ []

clean-After_example : After (clean (λ n. false) (λ gs. gs) two_pages (start_at 0))
clean-After_example =
    clean-After (λ n. false) (λ gs. gs) two_pages (start_at 0) (record { keeps_all = λ P gs h. h })
      (((λ e. cc), ((λ e. cc), ((λ e. cc), tt))), (tt, tt))
      (record { small_groups = tt; batches = tt })

clean_ends_test : (clean (λ n. false) (λ gs. gs) two_pages (start_at 0)).1 ≡ cleaned
clean_ends_test = clean_ends (λ n. false) (λ n. refl) (λ gs. gs) two_pages (start_at 0) tt

two_pages_cleaned : (clean (λ n. false) (λ gs. gs) two_pages (start_at 0)).1 ≡ cleaned
two_pages_cleaned = clean_ends (λ n. false) (λ n. refl) (λ gs. gs) two_pages (start_at 0) tt

count_batches-clean_example :
    count_batches (codes "u:1") (clean (λ n. false) (λ gs. gs) two_pages (start_at 0)).0.unlinked
    ≡ 2
count_batches-clean_example =
    count_batches-clean (λ n. false) (λ gs. gs) two_pages 0 (codes "u:1")
      (record { keeps_counts = λ x gs. refl }) two_pages_cleaned

abbrev entry_at : Bytes → ℕ → Bool → Entry
entry_at key overhead expiring = record {
  id = 0;
  is_base = true;
  db_id = pos 0;
  argv = [];
  key = key;
  overhead = overhead;
  is_expire_key = expiring;
}

abbrev three_sent : List Entry
three_sent =
    entry_at (codes "u:1") 80 false
    ∷ entry_at (codes "v:1") 90 true
    ∷ entry_at (codes "u:2") 104 true
    ∷ []

add_entries-sum_for_example :
    ((row_of (codes "u") (add_entries three_sent [])).key_count
      ≡ sum_for (codes "u") one_key three_sent % 2 ^ 64)
    × ((row_of (codes "u") (add_entries three_sent [])).expire_key_count
        ≡ sum_for (codes "u") one_expiring three_sent % 2 ^ 64)
    × ((row_of (codes "u") (add_entries three_sent [])).overhead
        ≡ sum_for (codes "u") overhead_of three_sent % 2 ^ 64)
add_entries-sum_for_example = add_entries-sum_for (codes "u") three_sent

abbrev pub role_lines : List Line
role_lines = heading (codes "# Replication") ∷ property (codes "role") (codes "slave") ∷ []

abbrev busy_lines : List Line
busy_lines =
    heading (codes "# Persistence") ∷ property (codes "rdb_bgsave_in_progress") (codes "1") ∷ []

abbrev pub done_lines : List Line
done_lines =
    heading (codes "# Persistence")
    ∷ property (codes "rdb_bgsave_in_progress") (codes "0")
    ∷ property (codes "rdb_last_bgsave_status") (codes "ok")
    ∷ []

dump_rdb-polls_example :
    dump_rdb (some (put_lines role_lines)) true (polls_then (busy_lines ∷ []) done_lines) ≡ dumped
dump_rdb-polls_example =
    dump_rdb-polls role_lines (busy_lines ∷ []) done_lines (ground arith, (ground arith, tt)) refl
      (((ground arith, (ground arith, tt)), refl), tt)
      (ground arith, (ground arith, (ground arith, tt))) refl

abbrev pub no_shares : FloatShare
no_shares = record { Float = ℕ; of_uint = λ n. n; div = λ a b. a; mul = λ a b. b; to_uint = λ x. x }

-- A dump that is polled twice.
abbrev two_polls : List (Option Bytes)
two_polls = polls_then (busy_lines ∷ []) done_lines

statistic_guard_example :
    ((statistic no_shares (some (put_lines role_lines)) true two_polls three_sent []
        ≡ (analysed no_shares three_sent, dumped))
      × (text : Bytes) × (some (put_lines role_lines) ≡ some text)
      × (same_bytes (parse_info_prop text (codes "role")) (codes "master") ≡ false)
      × (true ≡ true)
      × EndedWell two_polls)
    ⊎ ((dump_rdb (some (put_lines role_lines)) true two_polls ≢ dumped)
        × (statistic no_shares (some (put_lines role_lines)) true two_polls three_sent []
            ≡ ([], dump_rdb (some (put_lines role_lines)) true two_polls)))
statistic_guard_example =
    statistic_guard no_shares (some (put_lines role_lines)) true two_polls three_sent []

abbrev analysis_task : GenericTaskInfo
analysis_task = record {
  task_id = pos 4;
  task_type = pos 1;
  task_param = [];
  status = pos 0;
  start_time = 0;
  last_scan_time = 0;
  key_count = pos 0;
  task_log = [];
}

abbrev analysis_body : Bytes ⊎ GenericTaskInfo
analysis_body = inr analysis_task

abbrev no_decoder : ParamDecoder
no_decoder ps = inl (codes "no")

create_task_request_lem_example :
    ((t : GenericTaskInfo) × (analysis_body ≡ inr t)
      × (Task.check_task_type t ≡ true)
      × (check_param no_decoder t [] ≡ none)
      × (Task.report t.task_id [] ≡ none)
      × Created 10 11
          (codes "now")
          t
          []
          (create_task_request no_decoder 10 11 (codes "now") analysis_body []))
    ⊎ (((create_task_request no_decoder 10 11 (codes "now") analysis_body []).0 ≡ [])
        × ((create_task_request no_decoder 10 11 (codes "now") analysis_body []).1
            ≢ suc_with_msg created_message))
create_task_request_lem_example =
    create_task_request_lem no_decoder 10 11 (codes "now") analysis_body []

running-create_task_request_test :
    running (create_task_request no_decoder 10 11 (codes "now") analysis_body []).0 ≤ 1
running-create_task_request_test =
    running-create_task_request no_decoder 10 11 (codes "now") analysis_body [] (omega arith)

start_task_lem_test :
    ((start_task (codes "now") (panics (codes "x")) analysis_task).task_id ≡ pos 4)
    × ((start_task (codes "now") (panics (codes "x")) analysis_task).task_type ≡ pos 1)
    × ((start_task (codes "now") (panics (codes "x")) analysis_task).task_param ≡ [])
    × (((panics (codes "x") ≡ returns none)
          × ((start_task (codes "now") (panics (codes "x")) analysis_task).status ≡ pos 2))
        ⊎ ((panics (codes "x") ≢ returns none)
            × ((start_task (codes "now") (panics (codes "x")) analysis_task).status ≡ pos 3)))
    × (length (start_task (codes "now") (panics (codes "x")) analysis_task).task_log ≡ 1)
start_task_lem_test = start_task_lem (codes "now") (panics (codes "x")) analysis_task

abbrev many : GenerateUserDataParam
many = record { user_name = codes "u"; redis_type = codes "string"; count = 1000000 }

abbrev generate_task : GenericTaskInfo
generate_task = record {
  task_id = pos 4;
  task_type = pos 2;
  task_param = [];
  status = pos 0;
  start_time = 0;
  last_scan_time = 0;
  key_count = pos 0;
  task_log = [];
}

-- A million keys are accepted.
check_param_any_count_example : check_param (λ _. inr many) generate_task [] ≡ none
unfolding check_redis_type
check_param_any_count_example = check_param_any_count many generate_task [] refl

calc_crc64-crc64_reference_example :
    (update (update new_digest (1 ∷ [])) (2 ∷ []) ≡ calc_crc64 (1 ∷ 2 ∷ []))
    × (calc_crc64 (1 ∷ 2 ∷ []) ≡ crc64_reference 0 (1 ∷ 2 ∷ []))
calc_crc64-crc64_reference_example =
    calc_crc64-crc64_reference (1 ∷ []) (2 ∷ []) (omega arith, (omega arith, tt))

-- The checksum of "123456789", as the tests of Redis have it.
nine_digits : calc_crc64 (codes "123456789") ≡ 0xe9c6d914c4b8d9ca
unfolding calc_crc64 update
nine_digits = refl
