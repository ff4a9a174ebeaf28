-- ===== src/Jobs/History.antt =====
-- Any interleaving of the writes of internal/jobs: those of enqueueing, of runs (their start, their
-- progress and lines, their end), of cancels and of the sweeps.
use firebin_api.Jobs.Store.Kept.{
  IsKept, update_task-IsKept, append_log-IsKept, with_progress-IsStamped, as_running-IsStamped,
  as_terminal-IsStamped, create_task-IsKept, clear_finished-IsKept, as_cancelling-IsStamped,
}
use firebin_api.Base.{
  ℕ, String, List, [], ◌∷◌, Option, none, some, ◌≡◌, refl, arith, Bool-cases, Option-cases, inl,
  inr, ◌⊎◌, leb, ◌-◌, ltb,
}
use firebin_api.Jobs.Model.{Task, Jobs, Message, Status}
use firebin_api.Jobs.Store.{
  find_task, update_task, as_running, as_terminal, as_cancelling, with_progress, mark_running,
  mark_terminal, set_progress, request_cancel, append_log, clear_finished, find_stuck,
  is_cancellable, is_cancelling,
}
use firebin_api.Jobs.Run.Verdict.{
  written, settle_ok, settle_cancelled, settle_retrying, settle_failed,
}
use firebin_api.Jobs.Run.{begin_run, settle, log_in, publish_task, Ended}
use firebin_api.Jobs.Service.{
  enqueue, cancel, reconcile, fail_all, fail_stuck, prune, RiverRow, is_live,
}

pub data Write : Type 0 where
  enqueues : ℕ → ℕ → String → ℕ → ℕ → Option ℕ → Write
  begins : ℕ → ℕ → ℕ → Write
  progresses : ℕ → ℕ → ℕ → ℕ → Write
  says : ℕ → ℕ → String → Message → Write
  ends : ℕ → ℕ → ℕ → Ended → Write
  cancels : ℕ → ℕ → Write
  reconciles : ℕ → (ℕ → RiverRow) → Write
  prunes : ℕ → ℕ → Write
  clears : ℕ → Write

unfoldable pub perform : Write → Jobs → Jobs
perform (enqueues now k kind max total river) s = enqueue now k kind max total river s
perform (begins now k attempt) s = begin_run now k attempt s
perform (progresses now k n total) s = publish_task k (set_progress now k n total s)
perform (says now k level m) s = log_in now k level m s
perform (ends k attempt max e) s = publish_task k (settle k attempt max e s).1
perform (cancels now k) s = (cancel now k s).1
perform (reconciles now river) s = reconcile now river s
perform (prunes now retention) s = prune now retention s
perform (clears before) s = (clear_finished before s).1

unfoldable pub perform_all : List Write → Jobs → Jobs
unfolding perform
perform_all [] s = s
perform_all (w ∷ ws) s = perform_all ws (perform w s)

-- The tables before any task.
abbrev pub no_tasks : Jobs
no_tasks = record { tasks = []; logs = []; next_log = 1; published = [] }

publish_task-IsKept : (k : ℕ) (s : Jobs) → IsKept s → IsKept (publish_task k s)
unfolding publish_task
publish_task-IsKept k s h = record {
  distinct = h.distinct;
  stamped = h.stamped;
  ordered = h.ordered;
  known = h.known;
}

log_in-IsKept :
    (now k : ℕ) (level : String) (m : Message) (s : Jobs)
    → IsKept s
    → IsKept (log_in now k level m s)
unfolding log_in
log_in-IsKept now k level m s h = elim (Option-cases (find_task k s.tasks)) [
  | inl e ↦ rw (e, log_in) h
  | inr (t, e) ↦
      rw (e, log_in)
        (publish_task-IsKept k (append_log now k level m s) (append_log-IsKept now k level m s h))
]

mark_terminal-IsKept :
    (now k : ℕ) (st : Status) (msg : String) (result : Option String) (s : Jobs)
    → IsKept s
    → IsKept (mark_terminal now k st msg result s)
unfolding mark_terminal as_terminal
mark_terminal-IsKept now k st msg result s h =
    update_task-IsKept k (as_terminal now st msg result) s (λ t. refl)
      (λ t. as_terminal-IsStamped now st msg result t) h

begin_run-IsKept : (now k attempt : ℕ) (s : Jobs) → IsKept s → IsKept (begin_run now k attempt s)
unfolding begin_run mark_running as_running
begin_run-IsKept now k attempt s h = log_in-IsKept now k _ _ _ (
    publish_task-IsKept k _ (
      update_task-IsKept k (as_running now attempt) s (λ t. refl)
        (λ t. as_running-IsStamped now attempt t) h))

set_progress-IsKept :
    (now k n total : ℕ) (s : Jobs) → IsKept s → IsKept (set_progress now k n total s)
unfolding set_progress with_progress
set_progress-IsKept now k n total s h =
    update_task-IsKept k (with_progress now n total) s (λ t. refl)
      (λ t. with_progress-IsStamped now n total t) h

written-IsKept :
    (k : ℕ) (e : Ended) (s : Jobs) (st : Status) (msg level : String) (m : Message)
    → IsKept s
    → IsKept (written k e s st msg level m)
written-IsKept k e s st msg level m h =
    log_in-IsKept e.at k level m _ (mark_terminal-IsKept e.at k st msg e.result s h)

settle-IsKept :
    (k attempt max : ℕ) (e : Ended) (s : Jobs) → IsKept s → IsKept (settle k attempt max e s).1
settle-IsKept k attempt max e s h = elim (Option-cases e.failure) [
  | inl f ↦ rw (settle_ok k attempt max e s f) (written-IsKept k e s _ _ _ _ h)
  | inr (msg, f) ↦ elim (Bool-cases (is_cancelling k s)) [
    | inl c ↦ rw (settle_cancelled k attempt max e s msg f c) (written-IsKept k e s _ _ _ _ h)
    | inr c ↦ elim (Bool-cases (ltb attempt max)) [
      | inl b ↦ rw (settle_retrying k attempt max e s msg f c b) (written-IsKept k e s _ _ _ _ h)
      | inr b ↦ rw (settle_failed k attempt max e s msg f c b) (written-IsKept k e s _ _ _ _ h)
    ]
  ]
]

-- The tables that a cancel leaves, in each case.
cancel_cases :
    (now k : ℕ) (s : Jobs)
    → ((cancel now k s).1 ≡ s)
      ⊎ ((cancel now k s).1 ≡ publish_task k (update_task k (as_cancelling now) s))
unfolding cancel request_cancel
cancel_cases now k s = elim (Option-cases (find_task k s.tasks)) [
  | inl e ↦ inl (ground arith)
  | inr (t, e) ↦ elim (Bool-cases (is_cancellable t.status)) [
    | inl b ↦ inr (ground arith)
    | inr b ↦ inl (ground arith)
  ]
]

as_cancelling-id : (now : ℕ) (t : Task) → (as_cancelling now t).id ≡ t.id
unfolding as_cancelling
as_cancelling-id now t = ground arith

cancel-IsKept : (now k : ℕ) (s : Jobs) → IsKept s → IsKept (cancel now k s).1
cancel-IsKept now k s h = elim (cancel_cases now k s) [
  | inl e ↦ rw e h
  | inr e ↦ rw e (
      publish_task-IsKept k _ (
        update_task-IsKept k (as_cancelling now) s (as_cancelling-id now)
          (λ t. as_cancelling-IsStamped now t) h))
]

fail_stuck-IsKept : (now k : ℕ) (s : Jobs) → IsKept s → IsKept (fail_stuck now k s)
unfolding fail_stuck
fail_stuck-IsKept now k s h =
    publish_task-IsKept k _
      (append_log-IsKept now k _ _ _ (mark_terminal-IsKept now k _ _ none s h))

fail_all-IsKept :
    (now : ℕ) (river : ℕ → RiverRow) (ts : List Task) (s : Jobs)
    → IsKept s
    → IsKept (fail_all now river ts s)
unfolding fail_all
fail_all-IsKept now river [] s h = h
fail_all-IsKept now river (t ∷ ts) s h = elim (Bool-cases (is_live river t)) [
  | inl b ↦ rw (b, fail_all) (fail_all-IsKept now river ts s h)
  | inr b ↦
      rw (b, fail_all)
        (fail_all-IsKept now river ts (fail_stuck now t.id s) (fail_stuck-IsKept now t.id s h))
]

enqueue-IsKept :
    (now k : ℕ) (kind : String) (max total : ℕ) (river : Option ℕ) (s : Jobs)
    → IsKept s
    → IsKept (enqueue now k kind max total river s)
unfolding enqueue
enqueue-IsKept now k kind max total none s h = h
enqueue-IsKept now k kind max total (some r) s h = create_task-IsKept now k kind max total r s h

prune-IsKept : (now retention : ℕ) (s : Jobs) → IsKept s → IsKept (prune now retention s)
unfolding prune
prune-IsKept now retention s h = elim (Bool-cases (leb retention 0)) [
  | inl b ↦ rw b h
  | inr b ↦ rw b (clear_finished-IsKept (now - retention) s h)
]

perform-IsKept : (w : Write) (s : Jobs) → IsKept s → IsKept (perform w s)
unfolding perform reconcile
perform-IsKept (enqueues now k kind max total river) s h =
    enqueue-IsKept now k kind max total river s h
perform-IsKept (begins now k attempt) s h = begin_run-IsKept now k attempt s h
perform-IsKept (progresses now k n total) s h =
    publish_task-IsKept k _ (set_progress-IsKept now k n total s h)
perform-IsKept (says now k level m) s h = log_in-IsKept now k level m s h
perform-IsKept (ends k attempt max e) s h =
    publish_task-IsKept k _ (settle-IsKept k attempt max e s h)
perform-IsKept (cancels now k) s h = cancel-IsKept now k s h
perform-IsKept (reconciles now river) s h =
    fail_all-IsKept now river (find_stuck (now - 120000) s.tasks) s h
perform-IsKept (prunes now retention) s h = prune-IsKept now retention s h
perform-IsKept (clears before) s h = clear_finished-IsKept before s h

perform_all-IsKept : (ws : List Write) (s : Jobs) → IsKept s → IsKept (perform_all ws s)
unfolding perform_all
perform_all-IsKept [] s h = h
perform_all-IsKept (w ∷ ws) s h = perform_all-IsKept ws (perform w s) (perform-IsKept w s h)

-- After any interleaving of the writes of enqueueing, runs, cancels and sweeps, on tables that were
-- empty: tasks have different identifiers, every finished task has the time at which it finished,
-- the cursors of the log lines fall from the newest on and lie below the next one, and every log
-- line is of a task that is there.
pub interleaved : (ws : List Write) → IsKept (perform_all ws no_tasks)
interleaved ws =
    perform_all-IsKept ws no_tasks
      (record { distinct = tt; stamped = tt; ordered = tt; known = tt })
