-- ===== src/Server/Life/Bound.antt =====
-- How many statistics can be in progress at once.
use redis_agent.Common.{
  Bytes, Option, refl, ℕ, suc, ◌+◌, ◌≤◌, ◌<◌, Bool-cases, Bool, true, false, ◌&&◌, if◌then◌else◌,
  Bytes, List, [], ◌∷◌, ◌++◌, length, none, some, inl, inr, ◌≡◌, ◌∙◌, ap, arith, weigh,
  weigh-middle,
}
use native.Mathlib.Nat.{le_trans}
use redis_agent.Common.Int.{ℤ}
use redis_agent.Task.{
  same_int, statistic, generate, has_process_statistic_task, GenericTaskInfo, Tasks, update_task,
  append_suc_log, append_fail_log,
}
use redis_agent.Task.Store.{running, none_running, create_task_cases}
use redis_agent.Server.{
  ParamDecoder, check_param, check_statistic, check_generate_param, or_else, ongoing_message, Run,
  returns, panics, start_task,
}
use redis_agent.Server.Life.{
  System, Step, check, create, scan, finish, Steps, stay, then_step, idle, created, scanned,
}

abbrev pub is_statistic : GenericTaskInfo → ℕ
is_statistic t = if same_int t.task_type statistic then 1 else 0

-- The statistics in progress, and those about to be created.
abbrev pub wanted : System → ℕ
wanted s = running s.tasks + weigh is_statistic s.checked

weigh-length : (ts : List GenericTaskInfo) → weigh is_statistic ts ≤ length ts
weigh-length [] = omega arith
weigh-length (t ∷ ts) = ground (arith, weigh-length ts)

running-update_task :
    (k : ℤ) (f : GenericTaskInfo → GenericTaskInfo) (ts : Tasks)
    → ((t : GenericTaskInfo) → running ((k, f t) ∷ []) ≤ running ((k, t) ∷ []))
    → running (update_task k f ts) ≤ running ts
unfolding update_task
running-update_task k f [] h = omega arith
running-update_task k f ((j, t) ∷ ts) h = elim (Bool-cases (same_int j k)) [
  | inl e ↦ rw e (ground (arith, h t))
  | inr e ↦ rw e (ground (arith, running-update_task k f ts h))
]

start_task-running :
    (time_str : Bytes) (run : Run) (k : ℤ) (t : GenericTaskInfo)
    → running ((k, start_task time_str run t) ∷ []) ≡ 0
unfolding start_task append_suc_log append_fail_log
start_task-running time_str (returns none) k t = ground arith
start_task-running time_str (returns (some err)) k t = ground arith
start_task-running time_str (panics ex) k t = ground arith

-- A statistic that passes its check is the only one.
pub statistic_checked :
    (decode : ParamDecoder) (t : GenericTaskInfo) (ts : Tasks)
    → check_param decode t ts ≡ none
    → same_int t.task_type statistic ≡ true
    → has_process_statistic_task ts ≡ false
unfolding check_param check_statistic
statistic_checked decode t ts h k =
    refused_first
      (if same_int t.task_type generate then check_generate_param (decode t.task_param) else none)
      (same_int t.task_type statistic) (has_process_statistic_task ts) k h
  where
    refused_first :
        (o : Option Bytes) (b c : Bool)
        → b ≡ true
        → or_else o (if b && c then some ongoing_message else none) ≡ none
        → c ≡ false
    refused_first none true true e h = absurd (cc)
    refused_first none true false e h = refl
    refused_first none false c e h = absurd (cc)
    refused_first (some err) b c e h = absurd (cc)

wanted-check :
    (decode : ParamDecoder) (handlers : ℕ) (t : GenericTaskInfo) (s : System)
    → length s.checked < handlers
    → check_param decode t s.tasks ≡ none
    → wanted s ≤ handlers
    → running s.tasks + weigh is_statistic (t ∷ s.checked) ≤ handlers
wanted-check decode handlers t s few passed h = elim (Bool-cases (same_int t.task_type statistic)) [
  | inl e ↦
      let none_runs = none_running s.tasks (statistic_checked decode t s.tasks passed e) in
      rw e (omega (arith, weigh-length s.checked))
  | inr e ↦ rw e (omega arith)
]

wanted-create :
    (now later : ℕ) (time_str : Bytes) (before after : List GenericTaskInfo) (t : GenericTaskInfo)
    (s : System)
    → s.checked ≡ before ++ t ∷ after
    → wanted (created now later time_str t (before ++ after) s) ≤ wanted s
wanted-create now later time_str before after t s where_it_is =
    let split : weigh is_statistic s.checked
        ≡ is_statistic t + weigh is_statistic (before ++ after) =
      ap (weigh is_statistic) where_it_is ∙ weigh-middle is_statistic before after t in
    elim (create_task_cases now later time_str t s.tasks) [
      | inl (_, _, made) ↦ rw made (omega (arith, split))
      | inr (_, made) ↦ rw made (moved (same_int t.task_type statistic) _ _ _ split)
    ]
  where
    moved :
        (b : Bool) (m n r : ℕ)
        → m ≡ (if b then 1 else 0) + n
        → (if b && true then suc r else r) + n ≤ r + m
    moved true m n r e = omega (arith, e)
    moved false m n r e = omega (arith, e)

wanted-write :
    (f : GenericTaskInfo → GenericTaskInfo) (k : ℤ) (s : System) (ks : List ℤ)
    → ((t : GenericTaskInfo) → running ((k, f t) ∷ []) ≤ running ((k, t) ∷ []))
    → wanted (record { tasks = update_task k f s.tasks; checked = s.checked; working = ks })
      ≤ wanted s
wanted-write f k s ks h = omega (arith, running-update_task k f s.tasks h)

Step-wanted :
    {decode : ParamDecoder} {handlers : ℕ} {s u : System}
    → Step decode handlers s u
    → wanted s ≤ handlers
    → wanted u ≤ handlers
Step-wanted {decode} {handlers} {s} (check t few type passed) h =
    wanted-check decode handlers t s few passed h
Step-wanted {s = s} (create now later time_str before after t where_it_is) h =
    le_trans (wanted-create now later time_str before after t s where_it_is) h
Step-wanted {s = s} (scan now before after k where_it_is) h =
    le_trans (wanted-write (scanned now) k s s.working (λ t. omega arith)) h
Step-wanted {s = s} (finish time_str run before after k where_it_is) h =
    le_trans
      (wanted-write (start_task time_str run) k s (before ++ after)
        (λ t. omega (arith, start_task-running time_str run k t)))
      h

-- Where no more than `handlers` requests are between their check and their creation at once, no
-- more than `handlers` statistics are in progress at once, counting with them the statistics that
-- are checked and not created yet, in every state that can be reached, in any order of the steps.
pub Steps-wanted :
    (decode : ParamDecoder) (handlers : ℕ) (s : System)
    → Steps decode handlers idle s
    → running s.tasks + weigh is_statistic s.checked ≤ handlers
Steps-wanted decode handlers s stay = omega arith
Steps-wanted decode handlers s (then_step {t} steps step) =
    Step-wanted step (Steps-wanted decode handlers t steps)
