-- ===== src/Jobs/Run.antt =====
-- The harness of internal/jobs/run.go: `Run`, `Progress` and `ForEach`. A worker body is an argument.
pub mod Verdict
pub mod Each
pub mod Items
use firebin_api.Base.{
  ℕ, suc, ◌+◌, ◌-◌, String, Bool, true, false, ◌||◌, List, [], ◌∷◌, Option, none, some, leb, ltb,
  if◌then◌else◌, length,
}
use firebin_api.Jobs.Model.{
  Jobs, Status, completed, cancelled, retrying, failed, Message, started, completed_line,
  cancelled_line, attempt_failed, failed_line, of_task, of_tasks,
}
use firebin_api.Jobs.Store.{
  find_task, mark_running, mark_terminal, is_cancelling, append_log, set_progress,
}

unfoldable pub publish_task : ℕ → Jobs → Jobs
publish_task k s = record s { published = of_tasks ∷ of_task k ∷ s.published }

-- `logIn`: the event follows only where the row was written.
unfoldable pub log_in : ℕ → ℕ → String → Message → Jobs → Jobs
unfolding publish_task append_log
log_in now k level message s = elim (find_task k s.tasks) [
  | none ↦ s
  | some t ↦ publish_task k (append_log now k level message s)
]

-- How a body ends: its error, its result, and the time.
pub record Ended : Type 0 where
  pub failure : Option String
  pub result : Option String
  pub at : ℕ

-- What River is told.
pub data RiverReply : Type 0 where
  succeeded : RiverReply
  cancel_job fail_job : String → RiverReply

-- The switch after the body.
unfoldable pub settle : ℕ → ℕ → ℕ → Ended → Jobs → RiverReply × Jobs
unfolding log_in
settle k attempt max e s = elim e.failure [
  | none ↦ (
    succeeded,
    log_in e.at k "info" completed_line (mark_terminal e.at k completed "" e.result s),
  )
  | some msg ↦
      if is_cancelling k s
      then (
        cancel_job msg,
        log_in e.at k "warn" cancelled_line
            (mark_terminal e.at k cancelled "cancelled by request" e.result s),
      )
      else if ltb attempt max
      then (
        fail_job msg,
        log_in e.at k "warn" (attempt_failed attempt msg)
            (mark_terminal e.at k retrying msg e.result s),
      )
      else (
        fail_job msg,
        log_in e.at k "error" (failed_line msg) (mark_terminal e.at k failed msg e.result s),
      )
]

unfoldable pub begin_run : ℕ → ℕ → ℕ → Jobs → Jobs
unfolding log_in publish_task
begin_run now k attempt s =
    log_in now k "info" started (publish_task k (mark_running now k attempt s))

unfoldable pub run : ℕ → ℕ → ℕ → ℕ → (Jobs → Ended × Jobs) → Jobs → RiverReply × Jobs
unfolding begin_run settle publish_task
run now k attempt max body s =
    let (e, s₁) = body (begin_run now k attempt s) in
    let (reply, s₂) = settle k attempt max e s₁ in (reply, publish_task k s₂)

-- A run's handle: the time of its last flush, and the tables.
pub record Handle : Type 0 where
  pub last_flush : ℕ
  pub jobs : Jobs

-- At most one write in 500 milliseconds, and always the last one.
unfoldable pub progress : ℕ → ℕ → ℕ → ℕ → Handle → Handle
unfolding publish_task
progress now k done total r =
    if leb total done || ltb 500 (now - r.last_flush)
    then record { last_flush = now; jobs = publish_task k (set_progress now k done total r.jobs) }
    else r

-- What surrounds the items of a loop: the clock (in milliseconds) and whether the context is
-- cancelled, before each item.
pub record Surroundings : Type 0 where
  pub clock : ℕ → ℕ
  pub context_error : ℕ → Option String

-- The items from the i-th of n on.
unfoldable pub each_from :
    {A : Type 0}
    → Surroundings
    → (ℕ → A → Jobs → Jobs)
    → ℕ
    → ℕ
    → ℕ
    → List A
    → Handle
    → Option String × Handle
unfolding progress
each_from env fn k n i [] r = (none, r)
each_from env fn k n i (x ∷ xs) r = elim (env.context_error i) [
  | some e ↦ (some e, r)
  | none ↦
      each_from env fn k n (suc i) xs
        (progress (env.clock (suc i)) k (suc i) n (record r { jobs = fn i x r.jobs }))
]

unfoldable pub for_each :
    {A : Type 0}
    → Surroundings
    → (ℕ → A → Jobs → Jobs)
    → ℕ
    → List A
    → Handle
    → Option String × Handle
unfolding each_from progress
for_each env fn k xs r =
    each_from env fn k (length xs) 0 xs (progress (env.clock 0) k 0 (length xs) r)
