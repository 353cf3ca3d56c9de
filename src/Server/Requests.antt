-- ===== src/Server/Requests.antt =====
-- What the requests of server.go do to the tasks.
use redis_agent.Common.{
  ℕ, ◌+◌, ◌≤◌, ◌==◌, ◌||◌, ltb, ◌⊎◌, inl, inr, Bool, true, false, Bool-cases, if◌then◌else◌, Bytes,
  [], ◌∷◌, length, length-append, Option, none, some, Option-cases, codes, ◌≡◌, ◌≢◌, refl, sym, ap,
  ◌∙◌, arith,
}
use mathlib.Core.Path.{subst}
use redis_agent.Task.{
  same_int, statistic, generate, suc_status, fail, started, GenericTaskInfo, Tasks, report,
  has_process_statistic_task, check_task_type, create_task, create_if, exists_message,
  append_fail_log, append_suc_log,
}
use redis_agent.Task.Store.{running, none_running, create_task_race}
use redis_agent.Generate.{GenerateUserDataParam, check_redis_type}
use redis_agent.Server.Life.Bound.{statistic_checked}
use redis_agent.Server.{
  ParamDecoder, ongoing_message, check_generate_param, check_statistic, or_else, check_param,
  Response, fail_with_msg, suc_with_msg, created_message, answer, create_task_request, Run, returns,
  panics, start_task,
}

-- A task is put in, in progress.
abbrev pub Created : ℕ → ℕ → Bytes → GenericTaskInfo → Tasks → Tasks × Response → Type 0
Created now later time_str t ts r =
    r ≡ ((t.task_id, started now later time_str t) ∷ ts, suc_with_msg created_message)

module _ (decode : ParamDecoder) (now later : ℕ) (time_str : Bytes) where
  create_answer :
      (t : GenericTaskInfo) (ts : Tasks)
      → ((report t.task_id ts ≡ none)
          × Created now later time_str t ts (answer (create_task now later time_str t ts)))
        ⊎ (answer (create_task now later time_str t ts)
            ≡ (ts, fail_with_msg (exists_message t.task_id)))
  unfolding create_task
  create_answer t ts = elim (Option-cases (report t.task_id ts)) [
    | inl fresh ↦ inl (fresh, ap (λ r. answer (create_if r now later time_str t ts)) fresh)
    | inr (old, found) ↦ inr (ap (λ r. answer (create_if r now later time_str t ts)) found)
  ]

  -- A request to create a task, with a body that is a task or an error of its decoding: either the
  -- type and the parameters pass their checks, the id is new, the task is stored in progress and
  -- the answer says so; or no task is changed and the answer is another one.
  pub create_task_request_lem :
      (body : Bytes ⊎ GenericTaskInfo) (ts : Tasks)
      → ((t : GenericTaskInfo) × (body ≡ inr t)
          × (check_task_type t ≡ true)
          × (check_param decode t ts ≡ none)
          × (report t.task_id ts ≡ none)
          × Created now later time_str t ts (create_task_request decode now later time_str body ts))
        ⊎ (((create_task_request decode now later time_str body ts).0 ≡ ts)
            × ((create_task_request decode now later time_str body ts).1
                ≢ suc_with_msg created_message))
  unfolding create_task_request
  create_task_request_lem (inl err) ts = inr (refl, λ e. cc)
  create_task_request_lem (inr t) ts = elim (Bool-cases (check_task_type t)) [
    | inr h ↦ rw h (inr (refl, λ e. cc))
    | inl h ↦ elim (Option-cases (check_param decode t ts)) [
      | inr (err, k) ↦ inr (rw (h, k) refl, rw (h, k) (λ e. cc))
      | inl k ↦ elim (create_answer t ts) [
        | inl (fresh, made) ↦ inl (t, refl, h, k, fresh, rw (h, k) made)
        | inr old ↦ inr (rw (h, k, old) refl, rw (h, k, old) (λ e. cc))
      ]
    ]
  ]

  running-cons :
      (t : GenericTaskInfo) (ts : Tasks)
      → check_param decode t ts ≡ none
      → running ts ≤ 1
      → running ((t.task_id, started now later time_str t) ∷ ts) ≤ 1
  running-cons t ts h k = elim (Bool-cases (same_int t.task_type statistic)) [
    | inl e ↦ let idle = none_running ts (statistic_checked decode t ts h e) in rw e (omega arith)
    | inr e ↦ rw e k
  ]

  -- Requests handled one after the other keep at most one statistic in progress: whatever the body
  -- is, no request to create a task starts a second one.
  pub running-create_task_request :
      (body : Bytes ⊎ GenericTaskInfo) (ts : Tasks)
      → running ts ≤ 1
      → running (create_task_request decode now later time_str body ts).0 ≤ 1
  running-create_task_request body ts h = elim (create_task_request_lem body ts) [
    | inl (t, _, _, checked, _, made) ↦
        subst (λ r. running r.0 ≤ 1) (sym made) (running-cons t ts checked h)
    | inr (same, _) ↦ subst (λ us. running us ≤ 1) (sym same) h
  ]

check_param-statistic :
    (decode : ParamDecoder) (t : GenericTaskInfo) (ts : Tasks)
    → t.task_type ≡ statistic
    → check_param decode t ts
      ≡ (if has_process_statistic_task ts then some ongoing_message else none)
unfolding check_param check_statistic
check_param-statistic decode t ts e = rw e refl

answer-tasks : (r : Tasks × Option Bytes) → (answer r).0 ≡ r.0
answer-tasks (ts, none) = refl
answer-tasks (ts, some err) = refl

check_task_type-statistic :
    (t : GenericTaskInfo) → t.task_type ≡ statistic → check_task_type t ≡ true
unfolding check_task_type
check_task_type-statistic t h = rw h refl

-- A request for a statistic, let through or refused by the check.
request_passed :
    (decode : ParamDecoder) (now later : ℕ) (time_str : Bytes) (t : GenericTaskInfo) (ts : Tasks)
    → t.task_type ≡ statistic
    → check_param decode t ts ≡ none
    → (create_task_request decode now later time_str (inr t) ts).0
      ≡ (create_task now later time_str t ts).0
unfolding create_task_request
request_passed decode now later time_str t ts h e =
    rw (check_task_type-statistic t h, e) (answer-tasks (create_task now later time_str t ts))

request_refused :
    (decode : ParamDecoder) (now later : ℕ) (time_str err : Bytes) (t : GenericTaskInfo)
    (ts : Tasks)
    → t.task_type ≡ statistic
    → check_param decode t ts ≡ some err
    → create_task_request decode now later time_str (inr t) ts ≡ (ts, fail_with_msg err)
unfolding create_task_request
request_refused decode now later time_str err t ts h e = rw (check_task_type-statistic t h, e) refl

-- Two requests for a statistic whose ids are new and differ, where no statistic is in progress. One
-- after the other, the second one is refused with the message that a statistic is in progress, and
-- changes no task. But `checkParam` and `CreateTask` take the lock apart: if both requests are
-- checked before either creates its task, both checks pass, and then two statistics are in progress.
pub create_task_request_race :
    (decode : ParamDecoder) (now later : ℕ) (time_str : Bytes) (t u : GenericTaskInfo) (ts : Tasks)
    → t.task_type ≡ statistic
    → u.task_type ≡ statistic
    → report t.task_id ts ≡ none
    → report u.task_id ts ≡ none
    → u.task_id ≢ t.task_id
    → has_process_statistic_task ts ≡ false
    → let one = (create_task_request decode now later time_str (inr t) ts).0 in
      (create_task_request decode now later time_str (inr u) one
        ≡ (one, fail_with_msg ongoing_message))
      × (check_param decode t ts ≡ none)
      × (check_param decode u ts ≡ none)
      × (running (create_task now later time_str u (create_task now later time_str t ts).0).0 ≡ 2)
create_task_request_race decode now later time_str t u ts ht hu ft fu apart idle =
    let (busy, two) = create_task_race now later time_str t u ts ht hu ft fu apart idle in
    let passes_t : check_param decode t ts ≡ none =
      check_param-statistic decode t ts ht ∙ rw idle refl in
    let passes_u : check_param decode u ts ≡ none =
      check_param-statistic decode u ts hu ∙ rw idle refl in
    let refused : check_param decode u (create_task now later time_str t ts).0
        ≡ some ongoing_message =
      check_param-statistic decode u (create_task now later time_str t ts).0 hu ∙ rw busy refl in
    let same = request_passed decode now later time_str t ts ht passes_t in
    (
      rw same (
          request_refused decode now later time_str ongoing_message u
            (create_task now later time_str t ts).0 hu refused),
      passes_t,
      passes_u,
      two,
    )

-- However the run of a task ends, by returning with or without an error or by a panic, the task
-- keeps its id, type and parameters, it is done just when the run returned without an error and
-- failed otherwise, never in progress any more, and its log has one line more.
pub start_task_lem :
    (time_str : Bytes) (run : Run) (t : GenericTaskInfo)
    → ((start_task time_str run t).task_id ≡ t.task_id)
      × ((start_task time_str run t).task_type ≡ t.task_type)
      × ((start_task time_str run t).task_param ≡ t.task_param)
      × (((run ≡ returns none) × ((start_task time_str run t).status ≡ suc_status))
          ⊎ ((run ≢ returns none) × ((start_task time_str run t).status ≡ fail)))
      × (length (start_task time_str run t).task_log ≡ length t.task_log + 1)
unfolding start_task append_suc_log append_fail_log
start_task_lem time_str (returns none) t =
    (refl, refl, refl, inl (refl, refl), length-append t.task_log (_ ∷ []))
start_task_lem time_str (returns (some err)) t =
    (refl, refl, refl, inr (λ e. cc, refl), length-append t.task_log (_ ∷ []))
start_task_lem time_str (panics ex) t =
    (refl, refl, refl, inr (λ e. cc, refl), length-append t.task_log (_ ∷ []))

same_branches : {A : Type 0} (b : Bool) (x : A) → (if b then x else x) ≡ x
same_branches true x = refl
same_branches false x = refl

-- The parameters of a task that generates data, with any count, are refused only for their type of
-- value: a count of 0 or above 99999 passes like every other.
pub check_param_any_count :
    (param : GenerateUserDataParam) (t : GenericTaskInfo) (ts : Tasks)
    → t.task_type ≡ generate
    → check_param (λ _. inr param) t ts
      ≡ (if check_redis_type param then none else some (codes "redisType illegality"))
unfolding check_param check_generate_param check_statistic
check_param_any_count param t ts e =
    rw (e, same_branches {A = Option Bytes} (param.count == 0 || ltb 99999 param.count) none)
      (no_more (if check_redis_type param then none else some (codes "redisType illegality")))
  where
    no_more : (o : Option Bytes) → or_else o none ≡ o
    no_more none = refl
    no_more (some err) = refl
