-- ===== src/Server/Life/Stable.antt =====
-- What the handlers and goroutines leave alone.
use redis_agent.Common.{
  Bytes, Option-cases, ℕ, Bool-cases, false, List, ◌∷◌, ◌++◌, some, inl, inr, ◌≡◌, ◌≢◌, refl, sym,
  ◌∙◌, ap, arith, weigh, weigh-middle,
}
use redis_agent.Common.Int.{ℤ}
use redis_agent.Task.{
  create_task, same_int, progress, GenericTaskInfo, Tasks, report, started, update_task,
}
use redis_agent.Task.Store.{same_int→eq, report-other, report-update_task}
use redis_agent.Server.{ParamDecoder}
use redis_agent.Server.Life.{
  System, Step, check, create, scan, finish, Steps, stay, then_step, idle,
}
use redis_agent.Server.Life.Kept.{is_id, Kept, Step-Kept, Steps-Kept}

-- No goroutine has the id of a task that is done.
working-apart :
    (s : System) (k j : ℤ) (before after : List ℤ) (t : GenericTaskInfo)
    → Kept s
    → s.working ≡ before ++ j ∷ after
    → report k s.tasks ≡ some t
    → same_int t.status progress ≡ false
    → same_int j k ≡ false
working-apart s k j before after t h where_it_is found done = elim (Bool-cases (same_int j k)) [
  | inr apart ↦ apart
  | inl same ↦
      let none_works : weigh (is_id k) (before ++ j ∷ after) ≡ 0 =
        ap (weigh (is_id k)) (sym where_it_is) ∙ h.workers k ∙ rw (found, done) refl in
      let one_works : is_id k j ≡ 1 = rw same refl in
      absurd (omega (arith, weigh-middle (is_id k) before after j))
]

-- A write to the task of another id.
report-apart :
    (k j : ℤ) (f : GenericTaskInfo → GenericTaskInfo) (ts : Tasks)
    → same_int j k ≡ false
    → report k (update_task j f ts) ≡ report k ts
report-apart k j f ts apart = report-update_task k j f ts ∙ rw apart refl

-- A task that is stored is left alone by the creation of any other.
report-create_task :
    (k : ℤ) (t u : GenericTaskInfo) (now later : ℕ) (time_str : Bytes) (ts : Tasks)
    → report k ts ≡ some t
    → report k (create_task now later time_str u ts).0 ≡ some t
unfolding create_task
report-create_task k t u now later time_str ts found = elim (Option-cases (report u.task_id ts)) [
  | inr (old, there) ↦ rw there found
  | inl fresh ↦ elim (report-other k u.task_id (started now later time_str u) ts) [
    | inl same ↦ absurd (cc (sym found ∙ ap (λ j. report j ts) same ∙ fresh))
    | inr other ↦ rw fresh (other ∙ found)
  ]
]

Step-stable :
    {decode : ParamDecoder} {handlers : ℕ} {s u : System} (k : ℤ) (t : GenericTaskInfo)
    → Step decode handlers s u
    → Kept s
    → same_int t.status progress ≡ false
    → report k s.tasks ≡ some t
    → report k u.tasks ≡ some t
Step-stable k t (check _ few type passed) h done found = found
Step-stable {s = s} k t (create now later time_str before after u where_it_is) h done found =
    report-create_task k t u now later time_str s.tasks found
Step-stable {s = s} k t (scan now before after j where_it_is) h done found =
    report-apart k j _ s.tasks (working-apart s k j before after t h where_it_is found done) ∙ found
Step-stable {s = s} k t (finish time_str run before after j where_it_is) h done found =
    report-apart k j _ s.tasks (working-apart s k j before after t h where_it_is found done) ∙ found

pub Steps-stable_from :
    {decode : ParamDecoder} {handlers : ℕ} {s u : System} (k : ℤ) (t : GenericTaskInfo)
    → Steps decode handlers s u
    → Kept s
    → same_int t.status progress ≡ false
    → report k s.tasks ≡ some t
    → Kept u × (report k u.tasks ≡ some t)
Steps-stable_from k t stay h done found = (h, found)
Steps-stable_from k t (then_step steps step) h done found =
    let (kept, still) = Steps-stable_from k t steps h done found in
    (Step-Kept step kept, Step-stable k t step kept done still)

-- A task that is done stays as it is: whatever handlers and goroutines do from a state that they
-- can reach in which the task of an id is not in progress, `Report` gives the same task for that
-- id, with its status and its log, ever after.
pub Steps-stable :
    (decode : ParamDecoder) (handlers : ℕ) (s u : System) (k : ℤ) (t : GenericTaskInfo)
    → Steps decode handlers idle s
    → Steps decode handlers s u
    → report k s.tasks ≡ some t
    → t.status ≢ progress
    → report k u.tasks ≡ some t
Steps-stable decode handlers s u k t reached steps found done =
    (Steps-stable_from k t steps (Steps-Kept decode handlers s reached)
      (not_same t.status progress done) found).1
  where
    not_same : (a b : ℤ) → a ≢ b → same_int a b ≡ false
    not_same a b apart = elim (Bool-cases (same_int a b)) [
      | inl same ↦ absurd (apart (same_int→eq a b same))
      | inr e ↦ e
    ]
