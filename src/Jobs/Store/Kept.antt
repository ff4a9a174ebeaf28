-- ===== src/Jobs/Store/Kept.antt =====
-- What every statement of internal/jobs/store.go keeps true of the tables.
use firebin_api.Base.{
  ℕ, ◌<◌, String, true, List, [], ◌∷◌, Option, none, ◌≡◌, ◌≢◌, arith, ◌==◌, All, Bool-cases,
  Option-cases, inl, inr, leb,
}
use firebin_api.Jobs.Model.{Task, JobLog, Jobs, Status, Message}
use firebin_api.Jobs.Store.{
  find_task, update, is_final, as_running, as_terminal, as_cancelling, with_progress, without_tasks,
  with_task, append_log, create_task, clear_finished, update_task, is_clearable,
}
use firebin_api.Jobs.Store.Lookup.{KeepsId}

-- A finished task has the time at which it finished.
unfoldable pub IsStamped : Task → Type 0
IsStamped t = is_final t.status ≡ true → t.finished_at ≢ none

-- The cursors of the log lines fall from the newest on, below the next one.
abbrev pub IsOrdered : ℕ → List JobLog → Type 0
IsOrdered next [] = Unit
IsOrdered next (l ∷ ls) = (l.id < next) × IsOrdered l.id ls

abbrev pub HasTasks : List Task → List JobLog → Type 0
HasTasks ts = All (λ l. find_task l.task_id ts ≢ none)

-- No two tasks share an identifier (the primary key).
abbrev pub Unused : ℕ → List Task → Type 0
Unused k = All (λ u. u.id ≢ k)

abbrev pub Distinct : List Task → Type 0
Distinct [] = Unit
Distinct (t ∷ ts) = Unused t.id ts × Distinct ts

pub record IsKept (s : Jobs) : Type 0 where
  pub distinct : Distinct s.tasks
  pub stamped : All IsStamped s.tasks
  pub ordered : IsOrdered s.next_log s.logs
  pub known : HasTasks s.tasks s.logs

find_task_there-update :
    (j k : ℕ) (f : Task → Task) (ts : List Task)
    → KeepsId f
    → find_task j ts ≢ none
    → find_task j (update k f ts) ≢ none
unfolding find_task update
find_task_there-update j k f [] p n = n
find_task_there-update j k f (t ∷ ts) p n = ground (arith, find_task_there-update j k f ts p, p t)

update-IsStamped :
    (k : ℕ) (f : Task → Task) (ts : List Task)
    → ((t : Task) → IsStamped t → IsStamped (f t))
    → All IsStamped ts
    → All IsStamped (update k f ts)
unfolding update
update-IsStamped k f [] q h = tt
update-IsStamped k f (t ∷ ts) q h = elim (Bool-cases (t.id == k)) [
  | inl b ↦ rw b (q t h.0, update-IsStamped k f ts q h.1)
  | inr b ↦ rw b (h.0, update-IsStamped k f ts q h.1)
]

update-Unused :
    (j k : ℕ) (f : Task → Task) (ts : List Task)
    → KeepsId f
    → Unused j ts
    → Unused j (update k f ts)
unfolding update
update-Unused j k f [] p h = tt
update-Unused j k f (t ∷ ts) p h = ground (arith, update-Unused j k f ts p h.1, h.0, p t)

update-Distinct :
    (k : ℕ) (f : Task → Task) (ts : List Task) → KeepsId f → Distinct ts → Distinct (update k f ts)
unfolding update
update-Distinct k f [] p h = tt
update-Distinct k f (t ∷ ts) p h =
    ground (arith, update-Distinct k f ts p h.1, update-Unused t.id k f ts p h.0, p t)

find_task-none-Unused : (k : ℕ) (ts : List Task) → find_task k ts ≡ none → Unused k ts
unfolding find_task
find_task-none-Unused k [] h = tt
find_task-none-Unused k (t ∷ ts) h = ground (arith, find_task-none-Unused k ts)

without_tasks-Unused :
    (before j : ℕ) (ts : List Task) → Unused j ts → Unused j (without_tasks before ts)
unfolding without_tasks
without_tasks-Unused before j [] h = tt
without_tasks-Unused before j (t ∷ ts) h = ground (arith, without_tasks-Unused before j ts h.1)

without_tasks-Distinct :
    (before : ℕ) (ts : List Task) → Distinct ts → Distinct (without_tasks before ts)
unfolding without_tasks
without_tasks-Distinct before [] h = tt
without_tasks-Distinct before (t ∷ ts) h =
    ground (arith, without_tasks-Distinct before ts h.1, without_tasks-Unused before t.id ts h.0)

update-HasTasks :
    (k : ℕ) (f : Task → Task) (ts : List Task) (ls : List JobLog)
    → KeepsId f
    → HasTasks ts ls
    → HasTasks (update k f ts) ls
update-HasTasks k f ts [] p h = tt
update-HasTasks k f ts (l ∷ ls) p h =
    (find_task_there-update l.task_id k f ts p h.0, update-HasTasks k f ts ls p h.1)

pub update_task-IsKept :
    (k : ℕ) (f : Task → Task) (s : Jobs)
    → KeepsId f
    → ((t : Task) → IsStamped t → IsStamped (f t))
    → IsKept s
    → IsKept (update_task k f s)
update_task-IsKept k f s p q h = record {
  distinct = update-Distinct k f s.tasks p h.distinct;
  stamped = update-IsStamped k f s.tasks q h.stamped;
  ordered = h.ordered;
  known = update-HasTasks k f s.tasks s.logs p h.known;
}

pub as_running-IsStamped :
    (now attempt : ℕ) (t : Task) → IsStamped t → IsStamped (as_running now attempt t)
unfolding as_running IsStamped is_final
as_running-IsStamped now attempt t h = λ f. cc

pub as_terminal-IsStamped :
    (now : ℕ) (st : Status) (msg : String) (result : Option String) (t : Task)
    → IsStamped t
    → IsStamped (as_terminal now st msg result t)
unfolding as_terminal IsStamped
as_terminal-IsStamped now st msg result t h = λ f. ground arith

pub as_cancelling-IsStamped : (now : ℕ) (t : Task) → IsStamped t → IsStamped (as_cancelling now t)
unfolding as_cancelling IsStamped is_final
as_cancelling-IsStamped now t h = ground arith

pub with_progress-IsStamped :
    (now n total : ℕ) (t : Task) → IsStamped t → IsStamped (with_progress now n total t)
unfolding with_progress IsStamped
with_progress-IsStamped now n total t h = h

cons-HasTasks :
    (t : Task) (ts : List Task) (ls : List JobLog) → HasTasks ts ls → HasTasks (t ∷ ts) ls
unfolding find_task
cons-HasTasks t ts [] h = tt
cons-HasTasks t ts (l ∷ ls) h = (ground (arith, h.0), cons-HasTasks t ts ls h.1)

pub append_log-IsKept :
    (now k : ℕ) (level : String) (m : Message) (s : Jobs)
    → IsKept s
    → IsKept (append_log now k level m s)
unfolding append_log
append_log-IsKept now k level m s h = elim (Option-cases (find_task k s.tasks)) [
  | inl e ↦ rw (e, append_log) h
  | inr (t, e) ↦
      rw (e, append_log)
        (record {
          distinct = h.distinct;
          stamped = h.stamped;
          ordered = (omega arith, h.ordered);
          known = (λ n. ground arith, h.known);
        })
]

without_tasks-IsStamped :
    (before : ℕ) (ts : List Task) → All IsStamped ts → All IsStamped (without_tasks before ts)
unfolding without_tasks
without_tasks-IsStamped before [] h = tt
without_tasks-IsStamped before (t ∷ ts) h = elim (Bool-cases (is_clearable before t)) [
  | inl b ↦ rw (b, without_tasks) (without_tasks-IsStamped before ts h.1)
  | inr b ↦ rw (b, without_tasks) (h.0, without_tasks-IsStamped before ts h.1)
]

with_task-HasTasks : (ts : List Task) (ls : List JobLog) → HasTasks ts (with_task ts ls)
unfolding with_task
with_task-HasTasks ts [] = tt
with_task-HasTasks ts (l ∷ ls) = elim (Option-cases (find_task l.task_id ts)) [
  | inl e ↦ rw (e, with_task) (with_task-HasTasks ts ls)
  | inr (t, e) ↦ rw (e, with_task) ((λ n. ground arith), with_task-HasTasks ts ls)
]

IsOrdered-mono :
    (next next' : ℕ) (ls : List JobLog)
    → leb next next' ≡ true
    → IsOrdered next ls
    → IsOrdered next' ls
IsOrdered-mono next next' [] b h = tt
IsOrdered-mono next next' (l ∷ ls) b h = (ground arith, h.1)

with_task-IsOrdered :
    (next : ℕ) (ts : List Task) (ls : List JobLog)
    → IsOrdered next ls
    → IsOrdered next (with_task ts ls)
unfolding with_task
with_task-IsOrdered next ts [] h = tt
with_task-IsOrdered next ts (l ∷ ls) h = elim (Option-cases (find_task l.task_id ts)) [
  | inl e ↦
      rw (e, with_task)
        (IsOrdered-mono l.id next (with_task ts ls) (ground arith)
          (with_task-IsOrdered l.id ts ls h.1))
  | inr (t, e) ↦ rw (e, with_task) (h.0, with_task-IsOrdered l.id ts ls h.1)
]

pub clear_finished-IsKept : (before : ℕ) (s : Jobs) → IsKept s → IsKept (clear_finished before s).1
unfolding clear_finished
clear_finished-IsKept before s h = record {
  distinct = without_tasks-Distinct before s.tasks h.distinct;
  stamped = without_tasks-IsStamped before s.tasks h.stamped;
  ordered = with_task-IsOrdered s.next_log (without_tasks before s.tasks) s.logs h.ordered;
  known = with_task-HasTasks (without_tasks before s.tasks) s.logs;
}

pub create_task-IsKept :
    (now k : ℕ) (kind : String) (max total river : ℕ) (s : Jobs)
    → IsKept s
    → IsKept (create_task now k kind max total river s)
unfolding create_task
create_task-IsKept now k kind max total river s h = elim (Option-cases (find_task k s.tasks)) [
  | inr (t, e) ↦ rw (e, create_task) h
  | inl e ↦
      rw (e, create_task)
        (record {
          distinct = (find_task-none-Unused k s.tasks e, h.distinct);
          stamped = (unfold IsStamped is_final in λ f. cc, h.stamped);
          ordered = h.ordered;
          known = cons-HasTasks _ s.tasks s.logs h.known;
        })
]
