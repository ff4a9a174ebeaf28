-- ===== src/Jobs/Examples.antt =====
-- Tasks of a short history, and the theorems of the jobs at them.
use firebin_api.Base.{
  ℕ, List, [], ◌∷◌, none, some, ◌≡◌, ◌≢◌, refl, length, ◌+◌, if◌then◌else◌, ◌==◌, All, ◌++◌,
}
use firebin_api.Jobs.Model.{Task, Jobs, JobLog, said, queued, running}
use firebin_api.Jobs.Store
use firebin_api.Jobs.Store.Kept.{IsStamped}
use firebin_api.Jobs.Logs.{logs, lines_after, cursor, logs_lem}
use firebin_api.Jobs.Run.{Ended, Surroundings, Handle, run, begin_run, for_each, publish_task}
use firebin_api.Jobs.Run.Items.{for_each_runs, until_error}
use firebin_api.Jobs.Run.Verdict.{Verdict, run_lem}
use firebin_api.Jobs.Run.Each.{for_each_lem, first_error}
use firebin_api.Jobs.Service.{RiverRow, unreadable, reconcile}
use firebin_api.Jobs.Service.Sweeps.{reconcile_lem, IsLost, as_lost}
use firebin_api.Jobs.Service.Cleared.{clear_finished_lem, IsClearable, Gone, Kept}
use firebin_api.Jobs.History.{
  Write, enqueues, cancels, ends, begins, perform_all, no_tasks, interleaved,
}

abbrev boom : Ended
boom = record { failure = some "boom"; result = none; at = 30 }

abbrev writes : List Write
writes =
    enqueues 10 1 "enrich" 3 5 (some 77)
    ∷ begins 20 1 1
    ∷ cancels 25 1
    ∷ ends 1 1 3 boom
    ∷ enqueues 40 2 "labels" 1 2 (some 78)
    ∷ []

interleaved_example : All IsStamped (perform_all writes no_tasks).tasks
interleaved_example = (interleaved writes).stamped

abbrev waiting : Task
waiting = record {
  id = 1;
  kind = "enrich";
  status = queued;
  progress_done = 0;
  progress_total = 5;
  result = none;
  error = "";
  attempt = 0;
  max_attempts = 3;
  river_job_id = some 77;
  created_at = 10;
  updated_at = 10;
  started_at = none;
  finished_at = none;
}

abbrev tables : Jobs
tables = record { tasks = waiting ∷ []; logs = []; next_log = 1; published = [] }

abbrev under_way : Task
under_way = record waiting { status = running; attempt = 1; started_at = some 20; updated_at = 20 }

abbrev fails_once : Jobs → Ended × Jobs
fails_once s = (boom, s)

run_lem_example :
    (t' : Task) × Verdict 1 3 boom under_way (run 20 1 1 3 fails_once tables).0 t'
    × (Store.find_task 1 (run 20 1 1 3 fails_once tables).1.tasks ≡ some t')
    × ((j : ℕ)
        → j ≢ 1
        → Store.find_task j (run 20 1 1 3 fails_once tables).1.tasks
          ≡ Store.find_task j (begin_run 20 1 1 tables).tasks)
unfolding begin_run Store.find_task Store.update Store.mark_running
run_lem_example = run_lem 20 1 1 3 fails_once tables under_way refl

abbrev quiet : Surroundings
quiet = record { clock = λ i. i; context_error = λ i. none }

abbrev handle : Handle
handle = record { last_flush = 0; jobs = tables }

for_each_lem_example :
    (for_each {A = ℕ} quiet (λ i x s. s) 1 (5 ∷ 6 ∷ []) handle).0 ≡ first_error (λ i. none) 0 2
for_each_lem_example = (for_each_lem {A = ℕ} quiet (λ i x s. s) 1 (5 ∷ 6 ∷ []) handle).0

abbrev noted_ids : List JobLog → List ℕ
noted_ids [] = []
noted_ids (l ∷ ls) = l.id ∷ noted_ids ls

logs_untouched :
    (now done total : ℕ) (s : Jobs)
    → noted_ids (publish_task 1 (Store.set_progress now 1 done total s)).logs ≡ noted_ids s.logs
unfolding publish_task Store.set_progress
logs_untouched now done total s = refl

-- Each item writes itself as the cursor of a log line; the context is cancelled before the third.
abbrev noted : ℕ → ℕ → Jobs → Jobs
noted i x s = record s {
  logs = record { id = x; task_id = 1; ts = i; level = "info"; message = said "item" } ∷ s.logs;
}

abbrev cut_short : Surroundings
cut_short = record {
  clock = λ i. i;
  context_error = λ i. if i == 2 then some "cancelled" else none;
}

for_each_runs_example :
    noted_ids (for_each cut_short noted 1 (5 ∷ 6 ∷ 7 ∷ []) handle).1.jobs.logs ≡ 6 ∷ 5 ∷ []
unfolding until_error
for_each_runs_example =
    for_each_runs cut_short noted 1 (λ s. noted_ids s.logs) (λ i x ids. x ∷ ids) (5 ∷ 6 ∷ 7 ∷ [])
      handle (λ j x s. refl) logs_untouched

abbrev no_jobs : ℕ → RiverRow
no_jobs k = unreadable

reconcile_lem_example :
    (IsLost 200000 no_jobs waiting
      → Store.find_task 1 (reconcile 200000 no_jobs tables).tasks ≡ some (as_lost 200000 waiting))
    × (¬ IsLost 200000 no_jobs waiting
        → Store.find_task 1 (reconcile 200000 no_jobs tables).tasks ≡ some waiting)
unfolding Store.find_task
reconcile_lem_example = reconcile_lem 200000 no_jobs 1 tables waiting (tt, tt) refl

clear_finished_lem_example :
    (IsClearable 100 waiting → Gone 1 (Store.clear_finished 100 tables).1)
    × (¬ IsClearable 100 waiting → Kept 1 waiting tables (Store.clear_finished 100 tables).1)
    × ((Store.clear_finished 100 tables).0 + length (Store.clear_finished 100 tables).1.tasks ≡ 1)
unfolding Store.find_task
clear_finished_lem_example = clear_finished_lem 100 1 tables waiting (tt, tt) refl

-- The tables after the history above.
abbrev after_writes : Jobs
after_writes = perform_all writes no_tasks

logs_lem_example :
    (lines_after 1 0 after_writes.logs
      ≡ logs 1 0 2 after_writes
        ++ lines_after 1 (cursor 0 (logs 1 0 2 after_writes)) after_writes.logs)
    × (logs 1 0 2 after_writes ≡ [] → lines_after 1 0 after_writes.logs ≡ [])
logs_lem_example = logs_lem 1 0 2 after_writes (interleaved writes).ordered
