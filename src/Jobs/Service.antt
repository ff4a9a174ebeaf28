-- ===== src/Jobs/Service.antt =====
-- `Enqueue`, `Cancel` and the sweeps of internal/jobs/service.go. River is an argument.
pub mod Sweeps
pub mod Cleared
use firebin_api.Base.{
  ℕ, suc, ◌+◌, ◌-◌, String, Bool, true, false, List, [], ◌∷◌, Option, none, some, leb, ltb,
  if◌then◌else◌, str_eq,
}
use firebin_api.Jobs.Model.{Task, Jobs, Status, failed, Message, reconciled}
use firebin_api.Jobs.Store.{
  find_task, create_task, mark_terminal, append_log, request_cancel, CancelReply, flagged, not_live,
  no_task, clear_finished, find_stuck,
}
use firebin_api.Jobs.Run.{publish_task}

-- One transaction: nothing is written where River does not take the job.
unfoldable pub enqueue : ℕ → ℕ → String → ℕ → ℕ → Option ℕ → Jobs → Jobs
enqueue now k kind max total none s = s
enqueue now k kind max total (some river) s = create_task now k kind max total river s

unfoldable pub cancel : ℕ → ℕ → Jobs → CancelReply × Jobs
unfolding publish_task
cancel now k s =
    let (reply, s₁) = request_cancel now k s in
    elim reply [
      | flagged river ↦ (flagged river, publish_task k s₁)
      | not_live ↦ (not_live, s₁)
      | no_task ↦ (no_task, s₁)
    ]

-- The state that River's table gives a job: an error of the query, no row, or a state.
pub data RiverRow : Type 0 where
  unreadable no_row : RiverRow
  in_state : String → RiverRow

-- `riverJobLive`, whose error the sweep ignores.
unfoldable pub river_job_live : RiverRow → Bool
river_job_live unreadable = false
river_job_live no_row = false
river_job_live (in_state st) =
    if str_eq st "available"
    then true
    else if str_eq st "running"
    then true
    else if str_eq st "retryable"
    then true
    else if str_eq st "scheduled"
    then true
    else str_eq st "pending"

unfoldable pub is_live : (ℕ → RiverRow) → Task → Bool
unfolding river_job_live
is_live river t = elim t.river_job_id [ none ↦ false | some j ↦ river_job_live (river j) ]

unfoldable pub fail_stuck : ℕ → ℕ → Jobs → Jobs
unfolding publish_task
fail_stuck now k s = publish_task k (
    append_log now k "error" reconciled
      (mark_terminal now k failed "worker lost (reconciled)" none s))

unfoldable pub fail_all : ℕ → (ℕ → RiverRow) → List Task → Jobs → Jobs
unfolding fail_stuck is_live
fail_all now river [] s = s
fail_all now river (t ∷ ts) s =
    fail_all now river ts (if is_live river t then s else fail_stuck now t.id s)

-- Two minutes, in milliseconds.
unfoldable pub reconcile : ℕ → (ℕ → RiverRow) → Jobs → Jobs
unfolding fail_all
reconcile now river s = fail_all now river (find_stuck (now - 120000) s.tasks) s

-- The sweep of finished tasks; a retention of 0 keeps them all.
unfoldable pub prune : ℕ → ℕ → Jobs → Jobs
prune now retention s = if leb retention 0 then s else (clear_finished (now - retention) s).1
