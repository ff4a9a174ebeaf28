-- ===== src/Jobs/Run/Each.antt =====
-- How the loop `ForEach` of internal/jobs/run.go ends.
use firebin_api.Base.{
  ℕ, zero, suc, ◌+◌, String, List, [], ◌∷◌, Option, none, some, ◌≡◌, refl, arith, length,
  Option-cases, inl, inr, sym, ◌∙◌, ap, map, ◌==◌, if◌then◌else◌,
}
use firebin_api.Jobs.Model.{Jobs, Task, of_task, of_tasks}
use firebin_api.Jobs.Store.{set_progress, update, with_progress}
use firebin_api.Jobs.Run.{Handle, Surroundings, each_from, for_each, progress, publish_task}

-- The first error that the context shows before one of the items from the i-th on.
unfoldable pub first_error : (ℕ → Option String) → ℕ → ℕ → Option String
first_error ctx i zero = none
first_error ctx i (suc m) = elim (ctx i) [ none ↦ first_error ctx (suc i) m | some e ↦ some e ]

-- The row k with n of n items done, at a time.
abbrev pub done_row : ℕ → ℕ → ℕ → Task → Task
done_row now k n t =
    if t.id == k then record t { progress_done = n; progress_total = n; updated_at = now } else t

-- The last thing done was to write into the row k that n of n are done, and to publish it.
abbrev pub IsFlushed : ℕ → ℕ → Handle → Type 0
IsFlushed k n r =
    (now : ℕ) × (s : Jobs) × (r.jobs ≡ record s {
      tasks = map (done_row now k n) s.tasks;
      published = of_tasks ∷ of_task k ∷ s.published;
    })

update-done_row :
    (now k n : ℕ) (ts : List Task) → update k (with_progress now n n) ts ≡ map (done_row now k n) ts
unfolding update with_progress
update-done_row now k n [] = refl
update-done_row now k n (t ∷ ts) = ap (λ us. done_row now k n t ∷ us) (update-done_row now k n ts)

set_progress-done :
    (now k n : ℕ) (s : Jobs)
    → publish_task k (set_progress now k n n s) ≡ record s {
      tasks = map (done_row now k n) s.tasks;
      published = of_tasks ∷ of_task k ∷ s.published;
    }
unfolding publish_task set_progress
set_progress-done now k n s =
    ap (λ ts. record s { tasks = ts; published = of_tasks ∷ of_task k ∷ s.published })
      (update-done_row now k n s.tasks)

flush_now :
    (now k n : ℕ) (r : Handle)
    → progress now k n n r
      ≡ record { last_flush = now; jobs = publish_task k (set_progress now k n n r.jobs) }
unfolding progress
flush_now now k n r = ground arith

progress-IsFlushed : (now k n m : ℕ) (r : Handle) → m ≡ n → IsFlushed k n (progress now k m n r)
progress-IsFlushed now k n m r h =
    rw (h, flush_now now k n r) (now, r.jobs, set_progress-done now k n r.jobs)

module _ {A : Type 0} (env : Surroundings) (fn : ℕ → A → Jobs → Jobs) (k n : ℕ) where
  unfoldable pub after_item : ℕ → A → Handle → Handle
  after_item i x r = progress (env.clock (suc i)) k (suc i) n (record r { jobs = fn i x r.jobs })

  pub each_from_error :
      (i : ℕ) (x : A) (xs : List A) (r : Handle) (e : String)
      → env.context_error i ≡ some e
      → each_from env fn k n i (x ∷ xs) r ≡ (some e, r)
  unfolding each_from
  each_from_error i x xs r e h = ground arith

  pub each_from_item :
      (i : ℕ) (x : A) (xs : List A) (r : Handle)
      → env.context_error i ≡ none
      → each_from env fn k n i (x ∷ xs) r ≡ each_from env fn k n (suc i) xs (after_item i x r)
  unfolding each_from after_item
  each_from_item i x xs r h = ground arith

  first_error-some :
      (i m : ℕ) (e : String)
      → env.context_error i ≡ some e
      → some e ≡ first_error env.context_error i (suc m)
  unfolding first_error
  first_error-some i m e h = ground arith

  first_error-none :
      (i m : ℕ)
      → env.context_error i ≡ none
      → first_error env.context_error (suc i) m ≡ first_error env.context_error i (suc m)
  unfolding first_error
  first_error-none i m h = ground arith

  each_from-first_error :
      (i : ℕ) (xs : List A) (r : Handle)
      → (each_from env fn k n i xs r).0 ≡ first_error env.context_error i (length xs)
  each_from-first_error i [] r = unfold each_from first_error in refl
  each_from-first_error i (x ∷ xs) r = elim (Option-cases (env.context_error i)) [
    | inr (e, h) ↦ rw (each_from_error i x xs r e h) (first_error-some i (length xs) e h)
    | inl h ↦
        rw (each_from_item i x xs r h)
          (each_from-first_error (suc i) xs (after_item i x r) ∙ first_error-none i (length xs) h)
  ]

  each_from-IsFlushed :
      (i : ℕ) (xs : List A) (r : Handle)
      → i + length xs ≡ n
      → (xs ≡ [] → IsFlushed k n r)
      → (each_from env fn k n i xs r).0 ≡ none
      → IsFlushed k n (each_from env fn k n i xs r).1
  each_from-IsFlushed i [] r m f h = unfold each_from in f refl
  each_from-IsFlushed i (x ∷ xs) r m f h = elim (Option-cases (env.context_error i)) [
    | inr (e, c) ↦ absurd (ground (arith, each_from_error i x xs r e c))
    | inl c ↦ rw (each_from_item i x xs r c) (
        each_from-IsFlushed (suc i) xs (after_item i x r) (omega (arith, m))
          (λ none_left.
            unfold after_item in
            progress-IsFlushed (env.clock (suc i)) k n (suc i) _ (ground (arith, m)))
          (sym (ap (λ p. p.0) (each_from_item i x xs r c)) ∙ h))
  ]

-- `ForEach` returns the first error that the context shows before an item; where there is none, the
-- last thing it does is, whatever the throttle, to write into the task's row that all of the items are
-- done, with the time, and to publish that.
pub for_each_lem :
    {A : Type 0} (env : Surroundings) (fn : ℕ → A → Jobs → Jobs) (k : ℕ) (xs : List A) (r : Handle)
    → ((for_each env fn k xs r).0 ≡ first_error env.context_error 0 (length xs))
      × ((for_each env fn k xs r).0 ≡ none → IsFlushed k (length xs) (for_each env fn k xs r).1)
unfolding for_each
for_each_lem env fn k xs r = (
  each_from-first_error env fn k (length xs) 0 xs _,
  λ h.
      each_from-IsFlushed env fn k (length xs) 0 xs _ (omega arith)
        (λ empty. progress-IsFlushed (env.clock 0) k (length xs) 0 r (ground arith)) h,
)
