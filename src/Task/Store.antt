-- ===== src/Task/Store.antt =====
-- What the task store keeps, and what two requests at once can make of it.
use redis_agent.Common.{
  ℕ, suc, ==_iff, ◌&&◌, if◌then◌else◌, true, false, Bool-cases, inl, inr, ◌⊎◌, Bytes, [], ◌∷◌, none,
  some, Option-cases, ◌≡◌, ◌≢◌, refl, sym, ◌∙◌, ap, arith,
}
use redis_agent.Common.Int.{ℤ, pos, negsuc}
use redis_agent.Task.{
  same_int, progress, statistic, GenericTaskInfo, Tasks, report, started, exists_message, create_if,
  create_task, update_task, map_task, has_process_statistic_task,
}

pub same_int_refl : (a : ℤ) → same_int a a ≡ true
same_int_refl (pos n) = ground arith
same_int_refl (negsuc n) = ground arith

pub same_int→eq : (a b : ℤ) → same_int a b ≡ true → a ≡ b
same_int→eq (pos m) (pos n) h = ap pos ((==_iff m n).0 h)
same_int→eq (pos m) (negsuc n) h = ground arith
same_int→eq (negsuc m) (pos n) h = ground arith
same_int→eq (negsuc m) (negsuc n) h = ap negsuc ((==_iff m n).0 h)

-- A store with one more pair, at another id.
pub report-other :
    (k j : ℤ) (t : GenericTaskInfo) (ts : Tasks) → (k ≡ j) ⊎ (report k ((j, t) ∷ ts) ≡ report k ts)
unfolding report
report-other k j t ts = elim (Bool-cases (same_int j k)) [
  | inl e ↦ inl (sym (same_int→eq j k e))
  | inr e ↦ inr (rw e refl)
]

pub report-new : (j : ℤ) (t : GenericTaskInfo) (ts : Tasks) → report j ((j, t) ∷ ts) ≡ some t
unfolding report
report-new j t ts = rw (same_int_refl j) refl

same_int-diff : (i j k : ℤ) → same_int j i ≡ true → same_int j k ≡ false → same_int k i ≡ false
same_int-diff i j k d e = elim (Bool-cases (same_int k i)) [
  | inl both ↦
      let same : j ≡ k = same_int→eq j i d ∙ sym (same_int→eq k i both) in
      absurd (cc (sym e ∙ ap (same_int j) (sym same) ∙ same_int_refl j))
  | inr apart ↦ apart
]

-- A write through the pointer that the store has for an id.
pub report-update_task :
    (i k : ℤ) (f : GenericTaskInfo → GenericTaskInfo) (ts : Tasks)
    → report i (update_task k f ts)
      ≡ (if same_int k i then map_task f (report i ts) else report i ts)
unfolding report update_task
report-update_task i k f [] = ground arith
report-update_task i k f ((j, t) ∷ ts) = elim (Bool-cases (same_int j k)) [
  | inl e ↦ at_id j k (same_int→eq j k e) e
  | inr e ↦ elim (Bool-cases (same_int j i)) [
    | inl d ↦ rw (e, d, same_int-diff i j k d e) refl
    | inr d ↦ rw (e, d) (report-update_task i k f ts)
  ]
]
  where
    at_id :
        (j k : ℤ)
        → j ≡ k
        → same_int j k ≡ true
        → report i (update_task k f ((j, t) ∷ ts))
          ≡ (if same_int k i then map_task f (report i ((j, t) ∷ ts)) else report i ((j, t) ∷ ts))
    at_id j k same e = elim (Bool-cases (same_int k i)) [
      | inl d ↦ rw (e, d, ap (λ x. same_int x i) same ∙ d) refl
      | inr d ↦ rw (e, d, ap (λ x. same_int x i) same ∙ d) refl
    ]

-- `CreateTask` on an id that is there, and on a new one.
pub create_task_cases :
    (now later : ℕ) (time_str : Bytes) (t : GenericTaskInfo) (ts : Tasks)
    → ((old : GenericTaskInfo) × (report t.task_id ts ≡ some old)
        × (create_task now later time_str t ts ≡ (ts, some (exists_message t.task_id))))
      ⊎ ((report t.task_id ts ≡ none)
          × (create_task now later time_str t ts
              ≡ ((t.task_id, started now later time_str t) ∷ ts, none)))
unfolding create_task
create_task_cases now later time_str t ts = elim (Option-cases (report t.task_id ts)) [
  | inl fresh ↦ inr (fresh, ap (λ r. create_if r now later time_str t ts) fresh)
  | inr (old, found) ↦ inl (old, found, ap (λ r. create_if r now later time_str t ts) found)
]

-- Where `CreateTask` finds the id, it gives the error and leaves the tasks as they are; elsewhere
-- it gives no error, the id then has the task, in progress, and every other id has what it had.
pub create_task_lem :
    (now later : ℕ) (time_str : Bytes) (t : GenericTaskInfo) (ts : Tasks)
    → ((old : GenericTaskInfo) × (report t.task_id ts ≡ some old)
        × (create_task now later time_str t ts ≡ (ts, some (exists_message t.task_id))))
      ⊎ ((report t.task_id ts ≡ none)
          × ((create_task now later time_str t ts).1 ≡ none)
          × (report t.task_id (create_task now later time_str t ts).0
              ≡ some (started now later time_str t))
          × ((k : ℤ)
              → (k ≡ t.task_id) ⊎ (report k (create_task now later time_str t ts).0 ≡ report k ts)))
create_task_lem now later time_str t ts = elim (create_task_cases now later time_str t ts) [
  | inl old ↦ inl old
  | inr (fresh, made) ↦ inr (
    fresh,
    ap (λ r. r.1) made,
    ap (λ r. report t.task_id r.0) made ∙ report-new t.task_id _ ts,
    λ k. rw made (report-other k t.task_id _ ts),
  )
]

-- The tasks of a statistic that are in progress.
abbrev pub running : Tasks → ℕ
running [] = 0
running ((k, t) ∷ ts) =
    if same_int t.task_type statistic && same_int t.status progress
    then suc (running ts)
    else running ts

pub none_running : (ts : Tasks) → has_process_statistic_task ts ≡ false → running ts ≡ 0
unfolding has_process_statistic_task
none_running [] h = refl
none_running ((k, t) ∷ ts) h = ground (arith, none_running ts)

-- A statistic that is created is counted.
running-create_task :
    (now later : ℕ) (time_str : Bytes) (t : GenericTaskInfo) (ts : Tasks)
    → t.task_type ≡ statistic
    → report t.task_id ts ≡ none
    → (running (create_task now later time_str t ts).0 ≡ suc (running ts))
      × (has_process_statistic_task (create_task now later time_str t ts).0 ≡ true)
unfolding create_task has_process_statistic_task
running-create_task now later time_str t ts h fresh = rw (fresh, h) (refl, refl)

-- Two statistics whose ids are new and differ, where none is in progress: once the first is created,
-- `HasProcessStatisticTask` answers yes, and once both are, two are in progress.
pub create_task_race :
    (now later : ℕ) (time_str : Bytes) (t u : GenericTaskInfo) (ts : Tasks)
    → t.task_type ≡ statistic
    → u.task_type ≡ statistic
    → report t.task_id ts ≡ none
    → report u.task_id ts ≡ none
    → u.task_id ≢ t.task_id
    → has_process_statistic_task ts ≡ false
    → (has_process_statistic_task (create_task now later time_str t ts).0 ≡ true)
      × (running (create_task now later time_str u (create_task now later time_str t ts).0).0 ≡ 2)
create_task_race now later time_str t u ts ht hu ft fu apart idle =
    let first = running-create_task now later time_str t ts ht ft in
    let still : report u.task_id (create_task now later time_str t ts).0 ≡ none =
      still_new now later time_str t u ts ft fu apart in
    let second =
      running-create_task now later time_str u (create_task now later time_str t ts).0 hu still in
    (first.1, second.0 ∙ ap suc (first.0 ∙ ap suc (none_running ts idle)))
  where
    still_new :
        (now later : ℕ) (time_str : Bytes) (t u : GenericTaskInfo) (ts : Tasks)
        → report t.task_id ts ≡ none
        → report u.task_id ts ≡ none
        → u.task_id ≢ t.task_id
        → report u.task_id (create_task now later time_str t ts).0 ≡ none
    still_new now later time_str t u ts ft fu apart =
        elim (create_task_lem now later time_str t ts) [
          | inl (old, found, _) ↦ absurd (cc)
          | inr (_, _, _, others) ↦ elim (others u.task_id) [
            | inl e ↦ absurd (apart e)
            | inr e ↦ e ∙ fu
          ]
        ]
