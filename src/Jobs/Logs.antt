-- ===== src/Jobs/Logs.antt =====
-- `Logs` of internal/jobs/store.go: the log lines of a task, in pages by cursor.
use firebin_api.Base.{
  ℕ, zero, suc, ◌<◌, ◌≤◌, true, false, ◌&&◌, ◌||◌, List, [], ◌∷◌, ◌++◌, ◌≡◌, refl, arith, ◌==◌, leb,
  ltb, if◌then◌else◌, take, ap, sym, ◌∙◌, append-nil, Bool-cases, inl, inr, All-append, All,
}
use firebin_api.Jobs.Model.{JobLog, Jobs}
use firebin_api.Jobs.Store.Kept.{IsOrdered}

-- A limit that is not positive is 0 here.
unfoldable pub clamp_limit : ℕ → ℕ
clamp_limit limit = if leb limit 0 || ltb 1000 limit then 500 else limit

-- WHERE task_id = $1 AND id > $2 ORDER BY id ASC, from the newest line on.
unfoldable pub lines_after : ℕ → ℕ → List JobLog → List JobLog
lines_after k after [] = []
lines_after k after (l ∷ ls) =
    let rest = lines_after k after ls in
    if l.task_id == k && ltb after l.id then rest ++ (l ∷ []) else rest

unfoldable pub logs : ℕ → ℕ → ℕ → Jobs → List JobLog
unfolding clamp_limit lines_after
logs k after limit s = take (clamp_limit limit) (lines_after k after s.logs)

-- The cursor with which a client asks for the next page.
unfoldable pub cursor : ℕ → List JobLog → ℕ
cursor after [] = after
cursor after (l ∷ ls) = cursor l.id ls

abbrev IsAscending : ℕ → List JobLog → Type 0
IsAscending a [] = Unit
IsAscending a (l ∷ ls) = (a < l.id) × IsAscending l.id ls

above : ℕ → List JobLog → List JobLog
above c [] = []
above c (l ∷ ls) = if ltb c l.id then l ∷ above c ls else above c ls

above-append : (c : ℕ) (ls ms : List JobLog) → above c (ls ++ ms) ≡ above c ls ++ above c ms
unfolding above
above-append c [] ms = refl
above-append c (l ∷ ls) ms = ground (arith, above-append c ls ms)

above-last : (c : ℕ) (l : JobLog) → above c (l ∷ []) ≡ (if ltb c l.id then l ∷ [] else [])
unfolding above
above-last c l = refl

above-lines_after :
    (k after c : ℕ) (ls : List JobLog)
    → after ≤ c
    → lines_after k c ls ≡ above c (lines_after k after ls)
unfolding lines_after
above-lines_after k after c [] h = unfold above in refl
above-lines_after k after c (l ∷ ls) h = ground (
  arith,
  above-lines_after k after c ls h,
  above-append c (lines_after k after ls) (l ∷ []),
  above-last c l,
  append-nil (above c (lines_after k after ls)),
)

abbrev AllBelow : ℕ → List JobLog → Type 0
AllBelow n = All (λ m. m.id < n)

IsAscending-append :
    (a : ℕ) (ls : List JobLog) (l : JobLog)
    → IsAscending a ls
    → AllBelow l.id ls
    → a < l.id
    → IsAscending a (ls ++ (l ∷ []))
IsAscending-append a [] l h b c = (c, tt)
IsAscending-append a (m ∷ ls) l h b c = (h.0, IsAscending-append m.id ls l h.1 b.1 b.0)

AllBelow-mono : (n n' : ℕ) (ls : List JobLog) → n ≤ n' → AllBelow n ls → AllBelow n' ls
AllBelow-mono n n' [] h b = tt
AllBelow-mono n n' (l ∷ ls) h b = (omega (arith, b.0), AllBelow-mono n n' ls h b.1)

lines_after_skip :
    (k after : ℕ) (l : JobLog) (ls : List JobLog)
    → (l.task_id == k && ltb after l.id) ≡ false
    → lines_after k after (l ∷ ls) ≡ lines_after k after ls
unfolding lines_after
lines_after_skip k after l ls h = ground arith

lines_after_take :
    (k after : ℕ) (l : JobLog) (ls : List JobLog)
    → (l.task_id == k && ltb after l.id) ≡ true
    → lines_after k after (l ∷ ls) ≡ lines_after k after ls ++ (l ∷ [])
unfolding lines_after
lines_after_take k after l ls h = ground arith

lines_in_order :
    (k after next : ℕ) (ls : List JobLog)
    → IsOrdered next ls
    → IsAscending after (lines_after k after ls) × AllBelow next (lines_after k after ls)
lines_in_order k after next [] h = unfold lines_after in (tt, tt)
lines_in_order k after next (l ∷ ls) h =
    let rest = lines_in_order k after l.id ls h.1 in
    let below = AllBelow-mono l.id next (lines_after k after ls) (omega (arith, h.0)) rest.1 in
    elim (Bool-cases (l.task_id == k && ltb after l.id)) [
      | inr b ↦ rw (lines_after_skip k after l ls b) (rest.0, below)
      | inl b ↦ rw (lines_after_take k after l ls b) (
        IsAscending-append after (lines_after k after ls) l rest.0 rest.1 (ground arith),
        All-append (λ m. m.id < next) (lines_after k after ls) (l ∷ []) below (h.0, tt),
      )
    ]

IsAscending-mono : (a a' : ℕ) (ls : List JobLog) → a ≤ a' → IsAscending a' ls → IsAscending a ls
IsAscending-mono a a' [] h b = tt
IsAscending-mono a a' (l ∷ ls) h b = (omega (arith, b.0), b.1)

above_all : (a : ℕ) (ls : List JobLog) → IsAscending a ls → above a ls ≡ ls
unfolding above
above_all a [] h = refl
above_all a (l ∷ ls) h =
    ground (arith, h.0, above_all a ls (IsAscending-mono a l.id ls (omega (arith, h.0)) h.1))

cursor-le : (a n : ℕ) (ls : List JobLog) → IsAscending a ls → a ≤ cursor a (take n ls)
unfolding cursor
cursor-le a zero ls h = omega arith
cursor-le a (suc n) [] h = omega arith
cursor-le a (suc n) (l ∷ ls) h = omega (arith, h.0, cursor-le l.id n ls h.1)

above_skip : (c : ℕ) (l : JobLog) (ls : List JobLog) → l.id ≤ c → above c (l ∷ ls) ≡ above c ls
unfolding above
above_skip c l ls h = ground arith

page_and_rest :
    (a n : ℕ) (ls : List JobLog)
    → IsAscending a ls
    → ls ≡ take n ls ++ above (cursor a (take n ls)) ls
unfolding cursor
page_and_rest a zero ls h = sym (above_all a ls h)
page_and_rest a (suc n) [] h = unfold above in refl
page_and_rest a (suc n) (l ∷ ls) h =
    ap (λ (ms : List JobLog). l ∷ ms) (page_and_rest l.id n ls h.1)
    ∙ ap (λ (ms : List JobLog). l ∷ take n ls ++ ms)
        (sym (above_skip (cursor l.id (take n ls)) l ls (cursor-le l.id n ls h.1)))

clamp_limit-positive : (limit : ℕ) → 1 ≤ clamp_limit limit
unfolding clamp_limit
clamp_limit-positive limit = ground arith

take_none : (n : ℕ) (ls : List JobLog) → 1 ≤ n → take n ls ≡ [] → ls ≡ []
take_none zero ls h e = absurd (omega (arith, h))
take_none (suc n) [] h e = refl
take_none (suc n) (l ∷ ls) h e = cc

-- Where the cursors of the log fall from the newest line on, a page and what follows its last line
-- are together all the lines of the task after the cursor, none lost and none repeated; and a page
-- is empty only if there are none.
pub logs_lem :
    (k after limit : ℕ) (s : Jobs)
    → IsOrdered s.next_log s.logs
    → (lines_after k after s.logs
        ≡ logs k after limit s ++ lines_after k (cursor after (logs k after limit s)) s.logs)
      × (logs k after limit s ≡ [] → lines_after k after s.logs ≡ [])
unfolding logs
logs_lem k after limit s h =
    let ascending = (lines_in_order k after s.next_log s.logs h).0 in
    let n = clamp_limit limit in
    let all = lines_after k after s.logs in
    (
      page_and_rest after n all ascending
          ∙ ap (λ (ms : List JobLog). take n all ++ ms)
              (sym (
                above-lines_after k after (cursor after (take n all)) s.logs
                  (cursor-le after n all ascending))),
      take_none n all (clamp_limit-positive limit),
    )
