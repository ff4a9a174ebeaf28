-- ===== src/Jobs/Store/Lookup.antt =====
-- What the updates of internal/jobs/store.go do to a lookup.
use firebin_api.Base.{ℕ, List, [], ◌∷◌, some, ◌≡◌, ◌≢◌, refl, arith, ◌==◌, if◌then◌else◌}
use firebin_api.Jobs.Model.{Task}
use firebin_api.Jobs.Store.{find_task, update}

abbrev pub KeepsId : (Task → Task) → Type 0
KeepsId f = (t : Task) → (f t).id ≡ t.id

pub find_task-id : (k : ℕ) (ts : List Task) (t : Task) → find_task k ts ≡ some t → t.id ≡ k
unfolding find_task
find_task-id k [] t h = cc
find_task-id k (x ∷ ts) t h = ground (arith, find_task-id k ts t)

pub find_task-update :
    (k : ℕ) (f : Task → Task) (ts : List Task) (t : Task)
    → KeepsId f
    → find_task k ts ≡ some t
    → find_task k (update k f ts) ≡ some (f t)
unfolding find_task update
find_task-update k f [] t p h = cc
find_task-update k f (x ∷ ts) t p h = ground (arith, find_task-update k f ts t p, p x)

pub find_task_ne-update :
    (j k : ℕ) (f : Task → Task) (ts : List Task)
    → KeepsId f
    → j ≢ k
    → find_task j (update k f ts) ≡ find_task j ts
unfolding find_task update
find_task_ne-update j k f [] p n = refl
find_task_ne-update j k f (x ∷ ts) p n = ground (arith, find_task_ne-update j k f ts p n, p x)

pub find_task-update_any :
    (j k : ℕ) (f : Task → Task) (ts : List Task) (t : Task)
    → KeepsId f
    → find_task k ts ≡ some t
    → find_task k (update j f ts) ≡ some (if j == k then f t else t)
unfolding find_task update
find_task-update_any j k f [] t p h = cc
find_task-update_any j k f (x ∷ ts) t p h = ground (arith, find_task-update_any j k f ts t p, p x)
