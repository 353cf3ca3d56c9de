-- ===== src/Server/Life/Kept.antt =====
-- What every order of the handlers and goroutines keeps of the stored tasks.
use redis_agent.Common.{
  ℕ, ◌+◌, ◌≤◌, if◌then◌else◌, Bytes, List, ◌∷◌, ◌++◌, length, Option, none, some, Bool, ◌⊎◌, inl,
  inr, ◌≡◌, refl, sym, ◌∙◌, ap, true, false, arith, weigh, weigh-middle, All, All-middle,
}
use mathlib.Core.Path.{subst}
use redis_agent.Common.Int.{ℤ}
use redis_agent.Task.{
  same_int, progress, suc_status, fail, GenericTaskInfo, Tasks, report, check_task_type, started,
  update_task, map_task, append_suc_log, append_fail_log,
}
use redis_agent.Task.Store.{same_int→eq, create_task_cases, report-update_task}
use redis_agent.Server.{ParamDecoder, Run, returns, panics, start_task}
use redis_agent.Server.Requests.{start_task_lem}
use redis_agent.Server.Life.{
  System, Step, check, create, scan, finish, Steps, stay, then_step, idle, scanned,
}

-- Whether an id is this one, as a number.
abbrev pub is_id : ℤ → ℤ → ℕ
is_id k j = if same_int j k then 1 else 0

-- Whether there is a task in progress.
abbrev pub in_progress : Option GenericTaskInfo → ℕ
in_progress none = 0
in_progress (some t) = if same_int t.status progress then 1 else 0

-- A task that is stored at `k`.
pub record TaskKept (k : ℤ) (t : GenericTaskInfo) : Type 0 where
  pub id : t.task_id ≡ k
  pub type : check_task_type t ≡ true
  pub status : (t.status ≡ progress) ⊎ ((t.status ≡ suc_status) ⊎ (t.status ≡ fail))
  pub log : 1 ≤ length t.task_log

abbrev pub KeptAt : ℤ → Option GenericTaskInfo → Type 0
KeptAt k none = Unit
KeptAt k (some t) = TaskKept k t

-- At each id: one goroutine if the task there is in progress, and none otherwise; and what is kept
-- of the task. The tasks between check and creation have a type of the three.
pub record Kept (s : System) : Type 0 where
  pub workers : (k : ℤ) → weigh (is_id k) s.working ≡ in_progress (report k s.tasks)
  pub stored : (k : ℤ) → KeptAt k (report k s.tasks)
  pub typed : All (λ t. check_task_type t ≡ true) s.checked

Kept-idle : Kept idle
unfolding report
Kept-idle = record { workers = λ k. refl; stored = λ k. tt; typed = tt }

-- What a write by a goroutine keeps of the task at any id.
KeptAt-update :
    (i k : ℤ) (f : GenericTaskInfo → GenericTaskInfo) (ts : Tasks)
    → ((t : GenericTaskInfo) → TaskKept i t → TaskKept i (f t))
    → KeptAt i (report i ts)
    → KeptAt i (report i (update_task k f ts))
KeptAt-update i k f ts keeps h =
    subst (KeptAt i) (sym (report-update_task i k f ts)) (at_test (same_int k i) (report i ts) h)
  where
    at_test :
        (b : Bool) (o : Option GenericTaskInfo)
        → KeptAt i o
        → KeptAt i (if b then map_task f o else o)
    at_test true none h = h
    at_test true (some t) h = keeps t h
    at_test false o h = h

TaskKept-scanned :
    (now : ℕ) (i : ℤ) (t : GenericTaskInfo) → TaskKept i t → TaskKept i (scanned now t)
unfolding check_task_type
TaskKept-scanned now i t h = record { id = h.id; type = h.type; status = h.status; log = h.log }

TaskKept-start_task :
    (time_str : Bytes) (run : Run) (i : ℤ) (t : GenericTaskInfo)
    → TaskKept i t
    → TaskKept i (start_task time_str run t)
unfolding check_task_type
TaskKept-start_task time_str run i t h =
    let (id, type, _, status, log) = start_task_lem time_str run t in
    record {
      id = id ∙ h.id;
      type = rw type h.type;
      status = inr (done status);
      log = omega (arith, log);
    }
  where
    done :
        {P Q : Type 0} {z : ℤ}
        → ((P × (z ≡ suc_status)) ⊎ (Q × (z ≡ fail)))
        → (z ≡ suc_status) ⊎ (z ≡ fail)
    done (inl (_, e)) = inl e
    done (inr (_, e)) = inr e

-- The status of a task whose run has ended is not that of one in progress.
ended :
    (time_str : Bytes) (run : Run) (t : GenericTaskInfo)
    → same_int (start_task time_str run t).status progress ≡ false
unfolding start_task append_suc_log append_fail_log
ended time_str (returns none) t = ground arith
ended time_str (returns (some err)) t = ground arith
ended time_str (panics ex) t = ground arith

in_progress-scanned :
    (now : ℕ) (b : Bool) (o : Option GenericTaskInfo)
    → in_progress (if b then map_task (scanned now) o else o) ≡ in_progress o
in_progress-scanned now true none = refl
in_progress-scanned now true (some t) = refl
in_progress-scanned now false o = refl

-- One goroutine fewer, one task in progress fewer.
in_progress-finish :
    (time_str : Bytes) (run : Run) (b : Bool) (o : Option GenericTaskInfo) (n : ℕ)
    → (if b then 1 else 0) + n ≡ in_progress o
    → n ≡ in_progress (if b then map_task (start_task time_str run) o else o)
in_progress-finish time_str run true none n h = omega (arith, h)
in_progress-finish time_str run true (some t) n h = rw (ended time_str run t) (ground (arith, h))
in_progress-finish time_str run false o n h = omega (arith, h)

-- A task that `CreateTask` stores.
Kept-stored :
    (now later : ℕ) (time_str : Bytes) (t : GenericTaskInfo) (others : List GenericTaskInfo)
    (s : System)
    → check_task_type t ≡ true
    → All (λ u. check_task_type u ≡ true) others
    → report t.task_id s.tasks ≡ none
    → Kept s
    → Kept (record {
      tasks = (t.task_id, started now later time_str t) ∷ s.tasks;
      checked = others;
      working = t.task_id ∷ s.working;
    })
unfolding report check_task_type
Kept-stored now later time_str t others s type types fresh h = record {
  workers = λ k. one_more k (same_int t.task_id k) refl;
  stored = λ k. here_or_there k (same_int t.task_id k) refl;
  typed = types;
}
  where
    one_more :
        (k : ℤ) (b : Bool)
        → same_int t.task_id k ≡ b
        → weigh (is_id k) (t.task_id ∷ s.working)
          ≡ in_progress (if b then some (started now later time_str t) else report k s.tasks)
    one_more k true e =
        let at_k : report k s.tasks ≡ none =
          subst (λ j. report j s.tasks ≡ none) (same_int→eq _ k e) fresh in
        rw e (omega (arith, h.workers k ∙ ap in_progress at_k))
    one_more k false e = rw e (omega (arith, h.workers k))

    here_or_there :
        (k : ℤ) (b : Bool)
        → same_int t.task_id k ≡ b
        → KeptAt k (if b then some (started now later time_str t) else report k s.tasks)
    here_or_there k true e = record {
      id = same_int→eq _ k e;
      type = type;
      status = inl refl;
      log = omega arith;
    }
    here_or_there k false e = h.stored k

Kept-write :
    (f : GenericTaskInfo → GenericTaskInfo) (k : ℤ) (s : System) (ks : List ℤ)
    → ((i : ℤ) (t : GenericTaskInfo) → TaskKept i t → TaskKept i (f t))
    → ((i : ℤ)
        → weigh (is_id i) ks
          ≡ in_progress (if same_int k i then map_task f (report i s.tasks) else report i s.tasks))
    → Kept s
    → Kept (record { tasks = update_task k f s.tasks; checked = s.checked; working = ks })
Kept-write f k s ks keeps counts h = record {
  workers = λ i. counts i ∙ ap in_progress (sym (report-update_task i k f s.tasks));
  stored = λ i. KeptAt-update i k f s.tasks (keeps i) (h.stored i);
  typed = h.typed;
}

-- Each step keeps it.
pub Step-Kept :
    {decode : ParamDecoder} {handlers : ℕ} {s u : System}
    → Step decode handlers s u
    → Kept s
    → Kept u
Step-Kept (check t few type passed) h = record {
  workers = h.workers;
  stored = h.stored;
  typed = (type, h.typed);
}
Step-Kept {s = s} (create now later time_str before after t where_it_is) h =
    let (type, types) =
      All-middle (λ u. check_task_type u ≡ true) before after t
        (subst (All (λ u. check_task_type u ≡ true)) where_it_is h.typed) in
    elim (create_task_cases now later time_str t s.tasks) [
      | inl (old, found, made) ↦
          rw made (record { workers = h.workers; stored = h.stored; typed = types })
      | inr (fresh, made) ↦ rw made (Kept-stored now later time_str t _ s type types fresh h)
    ]
Step-Kept {s = s} (scan now before after k where_it_is) h =
    Kept-write (scanned now) k s s.working (TaskKept-scanned now)
      (λ i. h.workers i ∙ sym (in_progress-scanned now (same_int k i) (report i s.tasks))) h
Step-Kept {s = s} (finish time_str run before after k where_it_is) h =
    Kept-write (start_task time_str run) k s (before ++ after) (TaskKept-start_task time_str run)
      (λ i. in_progress-finish time_str run (same_int k i) (report i s.tasks) _ (
        sym (weigh-middle (is_id i) before after k)
        ∙ ap (weigh (is_id i)) (sym where_it_is)
        ∙ h.workers i))
      h

-- In every state that the handlers and goroutines reach from the empty store, in any order: a task
-- has exactly one goroutine while it is in progress and none once it has succeeded or failed; it is
-- stored under its own id, its type is one of the three, its status is one of progress, success and
-- failure, and its log is not empty.
pub Steps-Kept :
    (decode : ParamDecoder) (handlers : ℕ) (s : System) → Steps decode handlers idle s → Kept s
Steps-Kept decode handlers s stay = Kept-idle
Steps-Kept decode handlers s (then_step {t} steps step) =
    Step-Kept step (Steps-Kept decode handlers t steps)
