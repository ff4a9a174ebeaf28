-- ===== src/Jobs/Service/Cleared.antt =====
-- What the sweep `ClearFinished` of internal/jobs/store.go removes.
use firebin_api.Base.{
  ℕ, true, false, List, [], ◌∷◌, none, some, ◌≡◌, ◌≢◌, refl, arith, ◌==◌, if◌then◌else◌, All,
  Bool-cases, inl, inr, ◌∙◌, ◌+◌, ◌<◌, Option-cases, length, Option, sym, ◌≤◌, ==_iff, subst,
}
use firebin_api.Jobs.Model.{Task, Jobs, JobLog}
use firebin_api.Jobs.Store.{find_task, without_tasks, is_clearable, clear_finished, with_task}
use firebin_api.Jobs.Store.Kept.{Distinct}
use firebin_api.Jobs.Service.Sweeps.{IsFinished, IsFinished-is_final, is_final-IsFinished}

find_task-without_tasks-none :
    (before k : ℕ) (ts : List Task)
    → All (λ u. u.id ≢ k) ts
    → find_task k (without_tasks before ts) ≡ none
unfolding find_task without_tasks
find_task-without_tasks-none before k [] h = refl
find_task-without_tasks-none before k (t ∷ ts) h =
    ground (arith, find_task-without_tasks-none before k ts h.1)

find_task-without_tasks :
    (before k : ℕ) (ts : List Task) (t : Task)
    → Distinct ts
    → find_task k ts ≡ some t
    → find_task k (without_tasks before ts) ≡ (if is_clearable before t then none else some t)
unfolding find_task without_tasks
find_task-without_tasks before k [] t d h = cc
find_task-without_tasks before k (u ∷ ts) t d h = ground (
  arith,
  find_task-without_tasks before k ts t d.1,
  find_task-without_tasks-none before u.id ts d.0,
)

-- The log lines of a task.
abbrev pub lines_of : ℕ → List JobLog → List JobLog
lines_of k [] = []
lines_of k (l ∷ ls) = let rest = lines_of k ls in if l.task_id == k then l ∷ rest else rest

no_task : {t : Task} → Path (Option Task) none (some t) → ⊥
no_task h = cc

lines_of-kept :
    (k : ℕ) (ts : List Task) (t : Task) (ls : List JobLog)
    → find_task k ts ≡ some t
    → lines_of k (with_task ts ls) ≡ lines_of k ls
unfolding with_task
lines_of-kept k ts t [] h = refl
lines_of-kept k ts t (l ∷ ls) h = elim (Option-cases (find_task l.task_id ts)) [
  | inr (u, e) ↦ rw (e, with_task) (ground (arith, lines_of-kept k ts t ls h))
  | inl e ↦ elim (Bool-cases (l.task_id == k)) [
    | inl q ↦
        absurd (no_task (sym (subst (λ j. find_task j ts ≡ none) ((==_iff l.task_id k).0 q) e) ∙ h))
    | inr q ↦ rw (e, with_task, q) (lines_of-kept k ts t ls h)
  ]
]

lines_of-gone :
    (k : ℕ) (ts : List Task) (ls : List JobLog)
    → find_task k ts ≡ none
    → lines_of k (with_task ts ls) ≡ []
unfolding with_task
lines_of-gone k ts [] h = refl
lines_of-gone k ts (l ∷ ls) h = elim (Option-cases (find_task l.task_id ts)) [
  | inl e ↦ rw (e, with_task) (lines_of-gone k ts ls h)
  | inr (u, e) ↦ elim (Bool-cases (l.task_id == k)) [
    | inl q ↦ absurd (
        no_task {t = u}
          (sym h ∙ (subst (λ j. find_task j ts ≡ some u) ((==_iff l.task_id k).0 q) e)))
    | inr q ↦ rw (e, with_task, q) (lines_of-gone k ts ls h)
  ]
]

length-without_tasks : (before : ℕ) (ts : List Task) → length (without_tasks before ts) ≤ length ts
unfolding without_tasks
length-without_tasks before [] = omega arith
length-without_tasks before (t ∷ ts) = ground (arith, length-without_tasks before ts)

-- Finished, and created before the cutoff.
abbrev pub IsClearable : ℕ → Task → Type 0
IsClearable before t = IsFinished t.status × (t.created_at < before)

-- The task and its log lines, gone or kept.
abbrev pub Gone : ℕ → Jobs → Type 0
Gone k s' = (find_task k s'.tasks ≡ none) × (lines_of k s'.logs ≡ [])

abbrev pub Kept : ℕ → Task → Jobs → Jobs → Type 0
Kept k t s s' = (find_task k s'.tasks ≡ some t) × (lines_of k s'.logs ≡ lines_of k s.logs)

clear_finished-Gone :
    (before k : ℕ) (s : Jobs) (t : Task)
    → Distinct s.tasks
    → find_task k s.tasks ≡ some t
    → is_clearable before t ≡ true
    → Gone k (clear_finished before s).1
unfolding clear_finished
clear_finished-Gone before k s t d h c =
    let gone = find_task-without_tasks before k s.tasks t d h ∙ (rw c refl) in
    (gone, lines_of-gone k (without_tasks before s.tasks) s.logs gone)

clear_finished-Kept :
    (before k : ℕ) (s : Jobs) (t : Task)
    → Distinct s.tasks
    → find_task k s.tasks ≡ some t
    → is_clearable before t ≡ false
    → Kept k t s (clear_finished before s).1
unfolding clear_finished
clear_finished-Kept before k s t d h c =
    let there = find_task-without_tasks before k s.tasks t d h ∙ (rw c refl) in
    (there, lines_of-kept k (without_tasks before s.tasks) t s.logs there)

IsClearable-is_clearable :
    (before : ℕ) (t : Task) → is_clearable before t ≡ true → IsClearable before t
unfolding is_clearable
IsClearable-is_clearable before t h = (IsFinished-is_final t.status (ground arith), ground arith)

is_clearable-IsClearable :
    (before : ℕ) (t : Task) → IsClearable before t → is_clearable before t ≡ true
unfolding is_clearable
is_clearable-IsClearable before t h = ground (arith, is_final-IsFinished t.status h.0, h.1)

-- Where no two tasks share an identifier: `ClearFinished` removes a task that is completed, failed or
-- cancelled and was created before the cutoff, with all of its log lines; every other task it keeps
-- as it is, with all of its log lines; and it returns how many tasks fewer there are.
pub clear_finished_lem :
    (before k : ℕ) (s : Jobs) (t : Task)
    → Distinct s.tasks
    → find_task k s.tasks ≡ some t
    → (IsClearable before t → Gone k (clear_finished before s).1)
      × (¬ IsClearable before t → Kept k t s (clear_finished before s).1)
      × ((clear_finished before s).0 + length (clear_finished before s).1.tasks ≡ length s.tasks)
clear_finished_lem before k s t d h = (
  λ c. clear_finished-Gone before k s t d h (is_clearable-IsClearable before t c),
  λ c. elim (Bool-cases (is_clearable before t)) [
    | inl e ↦ absurd (c (IsClearable-is_clearable before t e))
    | inr e ↦ clear_finished-Kept before k s t d h e
  ],
  unfold clear_finished in omega (arith, length-without_tasks before s.tasks),
)
