-- ===== src/Jobs/Run/Verdict.antt =====
-- How a run of internal/jobs/run.go ends.
use firebin_api.Base.{
  ℕ, String, true, false, Option, none, some, ◌≡◌, ◌≢◌, ◌<◌, ◌≤◌, ◌⊎◌, true_ne_false, refl, arith,
  ltb, Bool-cases, Option-cases, inl, inr, ap, ◌∙◌, sym,
}
use firebin_api.Jobs.Model.{
  Task, Jobs, Message, queued, running, cancelling, completed, cancelled, retrying, failed, Status,
  attempt_failed, completed_line, failed_line, cancelled_line,
}
use firebin_api.Jobs.Store.{find_task, as_terminal, names_cancel, mark_terminal, is_cancelling}
use firebin_api.Jobs.Store.Lookup.{find_task-update, find_task_ne-update}
use firebin_api.Jobs.Run.{
  run, begin_run, settle, Ended, RiverReply, succeeded, cancel_job, fail_job, log_in, publish_task,
}

-- A result that the body gave, else the one that is there.
abbrev pub latest : Option String → Option String → Option String
latest none old = old
latest (some new) old = some new

-- The row of a task when its body has ended: these columns are written, the others are kept.
abbrev pub ended_row : Status → String → Option ℕ → Ended → Task → Task
ended_row st msg finished e t = record t {
  status = st;
  error = msg;
  result = latest e.result t.result;
  finished_at = finished;
  updated_at = e.at;
}

-- A cancel was asked for.
abbrev pub Asked : Status → Type 0
Asked st = (st ≡ cancelling) ⊎ (st ≡ cancelled)

-- What becomes of a task t whose body ended so, and what River is told.
pub data Verdict (attempt max : ℕ) (e : Ended) (t : Task) : RiverReply → Task → Type 0 where
  succeeds :
      e.failure ≡ none → Verdict attempt max e t succeeded (ended_row completed "" (some e.at) e t)
  stops :
      (msg : String)
      → e.failure ≡ some msg
      → Asked t.status
      → Verdict attempt max e t
          (cancel_job msg)
          (ended_row cancelled "cancelled by request" (some e.at) e t)
  retries :
      (msg : String)
      → e.failure ≡ some msg
      → ¬ Asked t.status
      → attempt < max
      → Verdict attempt max e t (fail_job msg) (ended_row retrying msg t.finished_at e t)
  fails :
      (msg : String)
      → e.failure ≡ some msg
      → ¬ Asked t.status
      → max ≤ attempt
      → Verdict attempt max e t (fail_job msg) (ended_row failed msg (some e.at) e t)

Asked-names_cancel : (st : Status) → names_cancel st ≡ true → Asked st
Asked-names_cancel cancelling h = inl refl
Asked-names_cancel cancelled h = inr refl
Asked-names_cancel queued h = cc
Asked-names_cancel running h = cc
Asked-names_cancel retrying h = cc
Asked-names_cancel completed h = cc
Asked-names_cancel failed h = cc

not_Asked : (st : Status) → names_cancel st ≡ false → ¬ Asked st
not_Asked st h (inl e) = absurd (true_ne_false (rw e at h))
not_Asked st h (inr e) = absurd (true_ne_false (rw e at h))

pub tasks-log_in :
    (now k : ℕ) (level : String) (m : Message) (s : Jobs) → (log_in now k level m s).tasks ≡ s.tasks
unfolding log_in
tasks-log_in now k level m s = ground arith

-- The row that the run of a task leaves, and that it changes no other.
record Leaves (k : ℕ) (s : Jobs) (t' : Task) (s' : Jobs) : Type 0 where
  row : find_task k s'.tasks ≡ some t'
  others : (j : ℕ) → j ≢ k → find_task j s'.tasks ≡ find_task j s.tasks

mark_terminal-Leaves :
    (now k : ℕ) (st : Status) (msg : String) (result : Option String) (level : String) (m : Message)
    (s : Jobs) (t : Task)
    → find_task k s.tasks ≡ some t
    → Leaves k s
        (as_terminal now st msg result t)
        (log_in now k level m (mark_terminal now k st msg result s))
unfolding mark_terminal as_terminal
mark_terminal-Leaves now k st msg result level m s t h = record {
  row =
      ap (find_task k) (tasks-log_in now k level m (mark_terminal now k st msg result s))
      ∙ find_task-update k (as_terminal now st msg result) s.tasks t (λ u. refl) h;
  others = λ j n.
      ap (find_task j) (tasks-log_in now k level m (mark_terminal now k st msg result s))
      ∙ find_task_ne-update j k (as_terminal now st msg result) s.tasks (λ u. refl) n;
}

is_cancelling_of :
    (k : ℕ) (s : Jobs) (t : Task)
    → find_task k s.tasks ≡ some t
    → is_cancelling k s ≡ names_cancel t.status
unfolding is_cancelling
is_cancelling_of k s t h = ground arith

-- The outcome of a body, and what the switch writes for it.
abbrev pub written : ℕ → Ended → Jobs → Status → String → String → Message → Jobs
written k e s st msg level m = log_in e.at k level m (mark_terminal e.at k st msg e.result s)

pub settle_ok :
    (k attempt max : ℕ) (e : Ended) (s : Jobs)
    → e.failure ≡ none
    → settle k attempt max e s ≡ (succeeded, written k e s completed "" "info" completed_line)
unfolding settle
settle_ok k attempt max e s f = ground arith

pub settle_cancelled :
    (k attempt max : ℕ) (e : Ended) (s : Jobs) (msg : String)
    → e.failure ≡ some msg
    → is_cancelling k s ≡ true
    → settle k attempt max e s
      ≡ (cancel_job msg, written k e s cancelled "cancelled by request" "warn" cancelled_line)
unfolding settle
settle_cancelled k attempt max e s msg f c = ground arith

pub settle_retrying :
    (k attempt max : ℕ) (e : Ended) (s : Jobs) (msg : String)
    → e.failure ≡ some msg
    → is_cancelling k s ≡ false
    → ltb attempt max ≡ true
    → settle k attempt max e s
      ≡ (fail_job msg, written k e s retrying msg "warn" (attempt_failed attempt msg))
unfolding settle
settle_retrying k attempt max e s msg f c b = ground arith

pub settle_failed :
    (k attempt max : ℕ) (e : Ended) (s : Jobs) (msg : String)
    → e.failure ≡ some msg
    → is_cancelling k s ≡ false
    → ltb attempt max ≡ false
    → settle k attempt max e s ≡ (fail_job msg, written k e s failed msg "error" (failed_line msg))
unfolding settle
settle_failed k attempt max e s msg f c b = ground arith

abbrev Settled : ℕ → ℕ → ℕ → Ended → Jobs → Task → RiverReply × Jobs → Type 0
Settled k attempt max e s t (reply, s') =
    (t' : Task) × Verdict attempt max e t reply t' × Leaves k s t' s'

settle-Settled :
    (k attempt max : ℕ) (e : Ended) (s : Jobs) (t : Task)
    → find_task k s.tasks ≡ some t
    → Settled k attempt max e s t (settle k attempt max e s)
unfolding as_terminal
settle-Settled k attempt max e s t h = elim (Option-cases e.failure) [
  | inl f ↦
      rw (settle_ok k attempt max e s f)
        (_, succeeds f, mark_terminal-Leaves e.at k completed "" e.result _ _ s t h)
  | inr (msg, f) ↦ elim (Bool-cases (is_cancelling k s)) [
    | inl c ↦ rw (settle_cancelled k attempt max e s msg f c) (
      _,
      stops msg f (Asked-names_cancel t.status (sym (is_cancelling_of k s t h) ∙ c)),
      mark_terminal-Leaves e.at k cancelled _ e.result _ _ s t h,
    )
    | inr c ↦ elim (Bool-cases (ltb attempt max)) [
      | inl b ↦ rw (settle_retrying k attempt max e s msg f c b) (
        _,
        retries msg f (not_Asked t.status (sym (is_cancelling_of k s t h) ∙ c)) (ground arith),
        mark_terminal-Leaves e.at k retrying msg e.result _ _ s t h,
      )
      | inr b ↦ rw (settle_failed k attempt max e s msg f c b) (
        _,
        fails msg f (not_Asked t.status (sym (is_cancelling_of k s t h) ∙ c)) (ground arith),
        mark_terminal-Leaves e.at k failed msg e.result _ _ s t h,
      )
    ]
  ]
]

-- A run whose task is still there when its body ends, whatever the body did to the tables, writes
-- that task's row, and no other: completed where the body returned no error; else cancelled where the
-- row says by then that a cancel was asked for, retrying where attempts are left, and failed where
-- none is, with the error; the result is the body's, if it gave one, the time is that of the end, and
-- the row is marked as finished except for a retry. River is told to drop the job where it was
-- cancelled, and the error in the last two cases.
pub run_lem :
    (now k attempt max : ℕ) (body : Jobs → Ended × Jobs) (s : Jobs) (t : Task)
    → find_task k (body (begin_run now k attempt s)).1.tasks ≡ some t
    → (t' : Task) × Verdict attempt max
        (body (begin_run now k attempt s)).0
        t
        (run now k attempt max body s).0
        t'
      × (find_task k (run now k attempt max body s).1.tasks ≡ some t')
      × ((j : ℕ)
          → j ≢ k
          → find_task j (run now k attempt max body s).1.tasks
            ≡ find_task j (body (begin_run now k attempt s)).1.tasks)
unfolding run publish_task
run_lem now k attempt max body s t h =
    let (t', v, l) =
      settle-Settled k attempt max (body (begin_run now k attempt s)).0
        (body (begin_run now k attempt s)).1 t h in
    (t', v, l.row, l.others)
