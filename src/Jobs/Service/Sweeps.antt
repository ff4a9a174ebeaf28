-- ===== src/Jobs/Service/Sweeps.antt =====
-- What the reconciler's sweep of internal/jobs/service.go touches.
use firebin_api.Base.{
  ℕ, ◌-◌, String, Bool, true, false, ◌&&◌, not, List, [], ◌∷◌, none, some, ◌≡◌, ◌≢◌, refl, arith,
  ◌==◌, if◌then◌else◌, All, Bool-cases, inl, inr, ap, ◌∙◌, ◌||◌, ◌+◌, ◌<◌, ◌⊎◌, ◌↔◌, true_ne_false,
  eq_iff, Option-cases, Option, sym,
}
use firebin_api.Jobs.Model.{
  Task, Jobs, Status, queued, running, retrying, completed, failed, cancelling, cancelled,
}
use firebin_api.Jobs.Store.{
  find_task, update, as_terminal, find_stuck, is_stuck, mark_terminal, append_log, is_final,
}
use firebin_api.Jobs.Store.Lookup.{find_task-update_any}
use firebin_api.Jobs.Store.Kept.{Distinct}
use firebin_api.Jobs.Run.{publish_task}
use firebin_api.Jobs.Service.{
  reconcile, fail_all, fail_stuck, is_live, RiverRow, unreadable, no_row, in_state, river_job_live,
}

-- A task as the reconciler leaves it: these columns are written, the others are kept.
abbrev pub as_lost : ℕ → Task → Task
as_lost now t = record t {
  status = failed;
  error = "worker lost (reconciled)";
  finished_at = some now;
  updated_at = now;
}

abbrev pub IsFinished : Status → Type 0
IsFinished st = (st ≡ completed) ⊎ (st ≡ failed) ⊎ (st ≡ cancelled)

pub IsFinished-is_final : (st : Status) → is_final st ≡ true → IsFinished st
unfolding is_final
IsFinished-is_final completed h = inl refl
IsFinished-is_final failed h = inr (inl refl)
IsFinished-is_final cancelled h = inr (inr refl)
IsFinished-is_final queued h = cc
IsFinished-is_final running h = cc
IsFinished-is_final retrying h = cc
IsFinished-is_final cancelling h = cc

pub is_final-IsFinished : (st : Status) → IsFinished st → is_final st ≡ true
unfolding is_final
is_final-IsFinished st (inl e) = rw e refl
is_final-IsFinished st (inr (inl e)) = rw e refl
is_final-IsFinished st (inr (inr e)) = rw e refl

-- The states in which River may still work on a job.
abbrev pub IsActive : RiverRow → Type 0
IsActive unreadable = ⊥
IsActive no_row = ⊥
IsActive (in_state st) =
    (st ≡ "available")
    ⊎ (st ≡ "running")
    ⊎ (st ≡ "retryable")
    ⊎ (st ≡ "scheduled")
    ⊎ (st ≡ "pending")

IsActive-river_job_live : (r : RiverRow) → (river_job_live r ≡ true) ↔ IsActive r
unfolding river_job_live
IsActive-river_job_live unreadable = (λ h. absurd (true_ne_false (sym h)), λ h. absurd h)
IsActive-river_job_live no_row = (λ h. absurd (true_ne_false (sym h)), λ h. absurd h)
IsActive-river_job_live (in_state st) = grind (
  arith,
  eq_iff st "available",
  eq_iff st "running",
  eq_iff st "retryable",
  eq_iff st "scheduled",
  eq_iff st "pending",
)

-- The task has a job that was read and found active.
abbrev pub HasActiveJob : (ℕ → RiverRow) → Task → Type 0
HasActiveJob river t = (j : ℕ) × (t.river_job_id ≡ some j) × IsActive (river j)

-- Not finished, not touched for two minutes, and without a job found active.
abbrev pub IsLost : ℕ → (ℕ → RiverRow) → Task → Type 0
IsLost now river t =
    (¬ IsFinished t.status) × (t.updated_at + 120000 < now) × (¬ HasActiveJob river t)

-- The reconciler's choice, as the code tests it.
unfoldable is_lost : ℕ → (ℕ → RiverRow) → Task → Bool
is_lost cutoff river t = is_stuck cutoff t && not (is_live river t)

no_job : {j : ℕ} → Path (Option ℕ) none (some j) → ⊥
no_job h = cc

same_job : {i j : ℕ} → Path (Option ℕ) (some i) (some j) → i ≡ j
same_job h = cc

live_job : (river : ℕ → RiverRow) (t : Task) → (is_live river t ≡ true) ↔ HasActiveJob river t
unfolding is_live
live_job river t = elim (Option-cases t.river_job_id) [
  | inl e ↦ (λ h. absurd (true_ne_false (sym (rw e at h))), λ h. absurd (no_job (sym e ∙ h.1)))
  | inr (j, e) ↦ (
    λ h. (j, e, (IsActive-river_job_live (river j)).0 (rw e at h)),
    λ h. rw e ((IsActive-river_job_live (river j)).1 (rw (same_job (sym e ∙ h.1)) h.2)),
  )
]

IsLost-is_lost :
    (now : ℕ) (river : ℕ → RiverRow) (t : Task)
    → is_lost (now - 120000) river t ≡ true
    → IsLost now river t
unfolding is_lost is_stuck
IsLost-is_lost now river t h = (
  λ done. absurd (true_ne_false (ground (arith, is_final-IsFinished t.status done))),
  ground arith,
  λ job. absurd (true_ne_false (ground (arith, (live_job river t).1 job))),
)

is_lost-IsLost :
    (now : ℕ) (river : ℕ → RiverRow) (t : Task)
    → IsLost now river t
    → is_lost (now - 120000) river t ≡ true
unfolding is_lost is_stuck
is_lost-IsLost now river t h = elim (Bool-cases (is_final t.status)) [
  | inl e ↦ absurd (h.0 (IsFinished-is_final t.status e))
  | inr e ↦ elim (Bool-cases (is_live river t)) [
    | inl l ↦ absurd (h.2 ((live_job river t).0 l))
    | inr l ↦ ground arith
  ]
]

tasks-append_log :
    (now k : ℕ) (level : String) (m : _) (s : Jobs) → (append_log now k level m s).tasks ≡ s.tasks
unfolding append_log
tasks-append_log now k level m s = ground arith

tasks-fail_stuck :
    (now k : ℕ) (s : Jobs) → (fail_stuck now k s).tasks ≡ update k (as_lost now) s.tasks
unfolding fail_stuck publish_task
tasks-fail_stuck now k s = tasks-append_log now k _ _ _ ∙ unfold mark_terminal as_terminal in refl

-- Which of the tasks to sweep has an identifier and no live job.
unfoldable pub will_fail : (ℕ → RiverRow) → ℕ → List Task → Bool
will_fail river k [] = false
will_fail river k (t ∷ ts) = (t.id == k && not (is_live river t)) || will_fail river k ts

as_lost_twice : (now : ℕ) (t : Task) → as_lost now (as_lost now t) ≡ as_lost now t
unfolding as_terminal
as_lost_twice now t = ground arith

-- One step of the sweep, in each case.
fail_all_live :
    (now : ℕ) (river : ℕ → RiverRow) (t : Task) (ts : List Task) (s : Jobs)
    → is_live river t ≡ true
    → fail_all now river (t ∷ ts) s ≡ fail_all now river ts s
unfolding fail_all
fail_all_live now river t ts s h = ground arith

fail_all_lost :
    (now : ℕ) (river : ℕ → RiverRow) (t : Task) (ts : List Task) (s : Jobs)
    → is_live river t ≡ false
    → fail_all now river (t ∷ ts) s ≡ fail_all now river ts (fail_stuck now t.id s)
unfolding fail_all
fail_all_lost now river t ts s h = ground arith

find_task-fail_stuck :
    (now j k : ℕ) (s : Jobs) (u : Task)
    → find_task k s.tasks ≡ some u
    → find_task k (fail_stuck now j s).tasks ≡ some (if j == k then as_lost now u else u)
find_task-fail_stuck now j k s u h =
    ap (find_task k) (tasks-fail_stuck now j s)
    ∙ find_task-update_any j k (as_lost now) s.tasks u (λ t. unfold as_terminal in refl) h

lost_again :
    (now : ℕ) (a b c : Bool) (u : Task)
    → (if b then as_lost now (if a then as_lost now u else u) else (if a then as_lost now u else u))
      ≡ (if a || b then as_lost now u else u)
lost_again now true true c u = as_lost_twice now u
lost_again now true false c u = refl
lost_again now false b c u = refl

find_task-fail_all :
    (now : ℕ) (river : ℕ → RiverRow) (k : ℕ) (ts : List Task) (s : Jobs) (u : Task)
    → find_task k s.tasks ≡ some u
    → find_task k (fail_all now river ts s).tasks
      ≡ some (if will_fail river k ts then as_lost now u else u)
find_task-fail_all now river k [] s u h = unfold fail_all will_fail in h
find_task-fail_all now river k (t ∷ ts) s u h = elim (Bool-cases (is_live river t)) [
  | inl b ↦ rw (fail_all_live now river t ts s b) (
      find_task-fail_all now river k ts s u h
      ∙ ap (λ (c : Bool). some (if c then as_lost now u else u)) (unfold will_fail in ground arith))
  | inr b ↦ rw (fail_all_lost now river t ts s b) (
      find_task-fail_all now river k ts (fail_stuck now t.id s)
        (if t.id == k then as_lost now u else u) (find_task-fail_stuck now t.id k s u h)
      ∙ ap some (lost_again now (t.id == k) (will_fail river k ts) true u)
      ∙ ap (λ (c : Bool). some (if c then as_lost now u else u)) (unfold will_fail in ground arith))
]

will_fail_none :
    (cutoff : ℕ) (river : ℕ → RiverRow) (k : ℕ) (ts : List Task)
    → All (λ u. u.id ≢ k) ts
    → will_fail river k (find_stuck cutoff ts) ≡ false
unfolding find_stuck will_fail
will_fail_none cutoff river k [] h = refl
will_fail_none cutoff river k (t ∷ ts) h = ground (arith, will_fail_none cutoff river k ts h.1)

will_fail-find_stuck :
    (cutoff : ℕ) (river : ℕ → RiverRow) (k : ℕ) (ts : List Task) (u : Task)
    → Distinct ts
    → find_task k ts ≡ some u
    → will_fail river k (find_stuck cutoff ts) ≡ is_lost cutoff river u
unfolding find_stuck will_fail find_task is_lost
will_fail-find_stuck cutoff river k [] u d h = cc
will_fail-find_stuck cutoff river k (t ∷ ts) u d h =
    ground
      (arith, will_fail-find_stuck cutoff river k ts u d.1, will_fail_none cutoff river t.id ts d.0)

reconcile_task :
    (now : ℕ) (river : ℕ → RiverRow) (k : ℕ) (s : Jobs) (t : Task)
    → Distinct s.tasks
    → find_task k s.tasks ≡ some t
    → find_task k (reconcile now river s).tasks
      ≡ some (if is_lost (now - 120000) river t then as_lost now t else t)
unfolding reconcile
reconcile_task now river k s t d h =
    find_task-fail_all now river k (find_stuck (now - 120000) s.tasks) s t h
    ∙ ap (λ (c : Bool). some (if c then as_lost now t else t))
        (will_fail-find_stuck (now - 120000) river k s.tasks t d h)

-- Where no two tasks share an identifier: the reconciler's sweep marks as failed, with its message
-- and the time, each task that is not finished, was not touched for two minutes, and has no job that
-- is read and found in one of River's five active states; every other task it leaves as it is.
pub reconcile_lem :
    (now : ℕ) (river : ℕ → RiverRow) (k : ℕ) (s : Jobs) (t : Task)
    → Distinct s.tasks
    → find_task k s.tasks ≡ some t
    → (IsLost now river t → find_task k (reconcile now river s).tasks ≡ some (as_lost now t))
      × (¬ IsLost now river t → find_task k (reconcile now river s).tasks ≡ some t)
reconcile_lem now river k s t d h = elim (Bool-cases (is_lost (now - 120000) river t)) [
  | inl e ↦ (
    λ lost. reconcile_task now river k s t d h ∙ (rw e refl),
    λ not_lost. absurd (not_lost (IsLost-is_lost now river t e)),
  )
  | inr e ↦ (
    λ lost. absurd (true_ne_false (sym (is_lost-IsLost now river t lost) ∙ e)),
    λ not_lost. reconcile_task now river k s t d h ∙ (rw e refl),
  )
]
