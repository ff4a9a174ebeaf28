-- ===== src/Jobs/Store.antt =====
-- The statements of internal/jobs/store.go.
pub mod Lookup
pub mod Kept
use firebin_api.Base.{
  ℕ, suc, ◌-◌, ◌+◌, String, Bool, true, false, ◌&&◌, ◌||◌, not, List, [], ◌∷◌, Option, none, some,
  ◌==◌, leb, ltb, if◌then◌else◌, length, take,
}
use firebin_api.Jobs.Model.{
  Task, JobLog, Jobs, Status, queued, running, retrying, completed, failed, cancelling, cancelled,
  Message, Topic, of_task, of_tasks,
}

unfoldable pub find_task : ℕ → List Task → Option Task
find_task k [] = none
find_task k (t ∷ ts) = if t.id == k then some t else find_task k ts

-- UPDATE tasks SET ... WHERE id = $1
unfoldable pub update : ℕ → (Task → Task) → List Task → List Task
update k f [] = []
update k f (t ∷ ts) = (if t.id == k then f t else t) ∷ update k f ts

abbrev pub update_task : ℕ → (Task → Task) → Jobs → Jobs
update_task k f s = record s { tasks = update k f s.tasks }

-- completed, failed or cancelled
unfoldable pub is_final : Status → Bool
is_final queued = false
is_final running = false
is_final retrying = false
is_final completed = true
is_final failed = true
is_final cancelling = false
is_final cancelled = true

-- What `Enqueue` writes in one transaction: a queued task with its River job.
unfoldable pub create_task : ℕ → ℕ → String → ℕ → ℕ → ℕ → Jobs → Jobs
create_task now k kind max total river s = elim (find_task k s.tasks) [
  | some t ↦ s
  | none ↦ record s {
    tasks =
        record {
          id = k;
          kind = kind;
          status = queued;
          progress_done = 0;
          progress_total = total;
          result = none;
          error = "";
          attempt = 0;
          max_attempts = if ltb max 1 then 1 else max;
          river_job_id = some river;
          created_at = now;
          updated_at = now;
          started_at = none;
          finished_at = none;
        }
        ∷ s.tasks;
  }
]

abbrev pub coalesce : {A : Type 0} → Option A → Option A → Option A
coalesce none b = b
coalesce (some a) b = some a

unfoldable pub as_running : ℕ → ℕ → Task → Task
as_running now attempt t = record t {
  status = running;
  attempt = attempt;
  started_at = coalesce t.started_at (some now);
  updated_at = now;
}

unfoldable pub mark_running : ℕ → ℕ → ℕ → Jobs → Jobs
unfolding as_running
mark_running now k attempt s = update_task k (as_running now attempt) s

unfoldable pub as_terminal : ℕ → Status → String → Option String → Task → Task
unfolding is_final
as_terminal now st msg result t = record t {
  status = st;
  error = msg;
  result = coalesce result t.result;
  finished_at = if is_final st then some now else t.finished_at;
  updated_at = now;
}

unfoldable pub mark_terminal : ℕ → ℕ → Status → String → Option String → Jobs → Jobs
unfolding as_terminal
mark_terminal now k st msg result s = update_task k (as_terminal now st msg result) s

unfoldable pub with_progress : ℕ → ℕ → ℕ → Task → Task
with_progress now done total t = record t {
  progress_done = done;
  progress_total = total;
  updated_at = now;
}

unfoldable pub set_progress : ℕ → ℕ → ℕ → ℕ → Jobs → Jobs
unfolding with_progress
set_progress now k done total s = update_task k (with_progress now done total) s

-- status IN ('queued','running','retrying')
unfoldable pub is_cancellable : Status → Bool
is_cancellable queued = true
is_cancellable running = true
is_cancellable retrying = true
is_cancellable completed = false
is_cancellable failed = false
is_cancellable cancelling = false
is_cancellable cancelled = false

unfoldable pub as_cancelling : ℕ → Task → Task
unfolding is_cancellable
as_cancelling now t =
    if is_cancellable t.status then record t { status = cancelling; updated_at = now } else t

-- The task's River job, that it could not be cancelled, or that there is no such task.
pub data CancelReply : Type 0 where
  flagged : Option ℕ → CancelReply
  not_live no_task : CancelReply

unfoldable pub request_cancel : ℕ → ℕ → Jobs → CancelReply × Jobs
unfolding as_cancelling
request_cancel now k s = elim (find_task k s.tasks) [
  | none ↦ (no_task, s)
  | some t ↦
      if is_cancellable t.status
      then (flagged t.river_job_id, update_task k (as_cancelling now) s)
      else (not_live, s)
]

abbrev pub names_cancel : Status → Bool
names_cancel queued = false
names_cancel running = false
names_cancel retrying = false
names_cancel completed = false
names_cancel failed = false
names_cancel cancelling = true
names_cancel cancelled = true

unfoldable pub is_cancelling : ℕ → Jobs → Bool
is_cancelling k s = elim (find_task k s.tasks) [ none ↦ false | some t ↦ names_cancel t.status ]

-- The log row, which a task that is gone refuses, and the event that follows it.
unfoldable pub append_log : ℕ → ℕ → String → Message → Jobs → Jobs
append_log now k level message s = elim (find_task k s.tasks) [
  | none ↦ s
  | some t ↦ record s {
    logs =
        record { id = s.next_log; task_id = k; ts = now; level = level; message = message }
        ∷ s.logs;
    next_log = suc s.next_log;
  }
]

unfoldable pub is_clearable : ℕ → Task → Bool
unfolding is_final
is_clearable before t = is_final t.status && ltb t.created_at before

unfoldable pub without_tasks : ℕ → List Task → List Task
unfolding is_clearable
without_tasks before [] = []
without_tasks before (t ∷ ts) =
    let rest = without_tasks before ts in if is_clearable before t then rest else t ∷ rest

-- ON DELETE CASCADE of `task_id`
unfoldable pub with_task : List Task → List JobLog → List JobLog
with_task ts [] = []
with_task ts (l ∷ ls) =
    let rest = with_task ts ls in elim (find_task l.task_id ts) [ none ↦ rest | some t ↦ l ∷ rest ]

unfoldable pub clear_finished : ℕ → Jobs → ℕ × Jobs
unfolding without_tasks with_task
clear_finished before s =
    let kept = without_tasks before s.tasks in
    (length s.tasks - length kept, record s { tasks = kept; logs = with_task kept s.logs })

-- FindStuck: the non-terminal tasks last touched before the cutoff.
unfoldable pub is_stuck : ℕ → Task → Bool
unfolding is_final
is_stuck cutoff t = not (is_final t.status) && ltb t.updated_at cutoff

unfoldable pub find_stuck : ℕ → List Task → List Task
unfolding is_stuck
find_stuck cutoff [] = []
find_stuck cutoff (t ∷ ts) =
    let rest = find_stuck cutoff ts in if is_stuck cutoff t then t ∷ rest else rest
