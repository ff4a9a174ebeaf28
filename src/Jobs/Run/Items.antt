-- ===== src/Jobs/Run/Items.antt =====
-- Which items the loop `ForEach` of internal/jobs/run.go runs.
use firebin_api.Base.{
  ℕ, suc, String, List, [], ◌∷◌, Option, none, some, ◌≡◌, refl, length, Option-cases, Bool-cases,
  inl, inr, ◌∙◌, ap, leb, ltb, ◌-◌, ◌||◌,
}
use firebin_api.Jobs.Model.{Jobs}
use firebin_api.Jobs.Store.{set_progress}
use firebin_api.Jobs.Run.{Handle, Surroundings, each_from, for_each, progress, publish_task}
use firebin_api.Jobs.Run.Each.{after_item, each_from_error, each_from_item}

-- What the items from the i-th on make of something, one after the other, until the context shows an
-- error before one of them.
unfoldable pub until_error :
    {A B : Type 0} → (ℕ → Option String) → (ℕ → A → B → B) → ℕ → List A → B → B
until_error ctx g i [] b = b
until_error ctx g i (x ∷ xs) b = elim (ctx i) [
  | none ↦ until_error ctx g (suc i) xs (g i x b)
  | some e ↦ b
]

-- A view of the tables that the writes of progress do not change.
abbrev pub IsBlind : {B : Type 0} → ℕ → (Jobs → B) → Type 0
IsBlind k view =
    (now done total : ℕ) (s : Jobs)
    → view (publish_task k (set_progress now k done total s)) ≡ view s

view-progress :
    {B : Type 0} (view : Jobs → B) (now k done total : ℕ) (r : Handle)
    → IsBlind k view
    → view (progress now k done total r).jobs ≡ view r.jobs
unfolding progress
view-progress view now k done total r blind =
    elim (Bool-cases (leb total done || ltb 500 (now - r.last_flush))) [
      | inl e ↦ rw (e, progress) (blind now done total r.jobs)
      | inr e ↦ rw (e, progress) refl
    ]

module _ {A B : Type 0} (env : Surroundings) (fn : ℕ → A → Jobs → Jobs) (k : ℕ) (view : Jobs → B)
    (g : ℕ → A → B → B) where
  view-each_from :
      (n i : ℕ) (xs : List A) (r : Handle)
      → ((j : ℕ) (x : A) (s : Jobs) → view (fn j x s) ≡ g j x (view s))
      → IsBlind k view
      → view (each_from env fn k n i xs r).1.jobs
        ≡ until_error env.context_error g i xs (view r.jobs)
  unfolding until_error after_item
  view-each_from n i [] r acts blind = unfold each_from in refl
  view-each_from n i (x ∷ xs) r acts blind = elim (Option-cases (env.context_error i)) [
    | inr (e, h) ↦ rw (each_from_error env fn k n i x xs r e h, until_error, h) refl
    | inl h ↦
        rw (each_from_item env fn k n i x xs r h, until_error, h)
          (view-each_from n (suc i) xs (after_item env fn k n i x r) acts blind
            ∙ ap (until_error env.context_error g (suc i) xs) (
                (unfold after_item in
                  view-progress view (env.clock (suc i)) k (suc i) n
                    (record r { jobs = fn i x r.jobs }) blind)
                ∙ acts i x r.jobs))
  ]

-- `ForEach` runs each item once, in their order and with its index, until the context shows an error
-- before one, and none after that: for every view of the tables that its writes of progress do not
-- change, and on which an item acts in some way, the view that is left is the one that these items make
-- of the first.
pub for_each_runs :
    {A B : Type 0} (env : Surroundings) (fn : ℕ → A → Jobs → Jobs) (k : ℕ) (view : Jobs → B)
    (g : ℕ → A → B → B) (xs : List A) (r : Handle)
    → ((j : ℕ) (x : A) (s : Jobs) → view (fn j x s) ≡ g j x (view s))
    → IsBlind k view
    → view (for_each env fn k xs r).1.jobs ≡ until_error env.context_error g 0 xs (view r.jobs)
unfolding for_each
for_each_runs env fn k view g xs r acts blind =
    view-each_from env fn k view g (length xs) 0 xs _ acts blind
    ∙ ap (until_error env.context_error g 0 xs)
        (view-progress view (env.clock 0) k 0 (length xs) r blind)
