-- ===== src/Kicad/Panel/Copies.antt =====
-- On a file in which every reference of the board stands equally often, the number is found.
use firebin_api.Base.{
  ℕ, suc, ◌+◌, ◌<◌, ◌≡◌, refl, ap, subst, Bool, true, false, not, ◌&&◌, List, [], ◌∷◌,
  if◌then◌else◌, ltb, All, arith, Bool-cases, inl, inr, ◌⊎◌, length,
}
use firebin_api.Base.Bytes.{Bytes, same, same_iff, same_refl, is_empty}
use firebin_api.Kicad.Panel.{
  bump, counts_of, bump_count, freq_of, mode_from, verdict, detect_in, detect_panel_pcb, board_refs,
}

-- How often a reference stands in a list.
abbrev pub times : Bytes → List Bytes → ℕ
times r [] = 0
times r (q ∷ qs) = (if same r q then 1 else 0) + times r qs

-- The count that a map has for a reference, 0 without one.
abbrev value_at : Bytes → List (Bytes × ℕ) → ℕ
value_at r [] = 0
value_at r (e ∷ es) = if same r (e.0) then e.1 else value_at r es

value_at-bump :
    (r q : Bytes) (es : List (Bytes × ℕ))
    → value_at r (bump q es) ≡ (if same r q then 1 else 0) + value_at r es
unfolding bump
value_at-bump r q [] = ground arith
value_at-bump r q (e ∷ es) =
    ground (arith, same_iff q (e.0), same_iff r (e.0), same_iff r q, value_at-bump r q es)

value_at-counts_of : (r : Bytes) (refs : List Bytes) → value_at r (counts_of refs) ≡ times r refs
unfolding counts_of
value_at-counts_of r [] = refl
value_at-counts_of r (q ∷ qs) =
    omega (arith, value_at-bump r q (counts_of qs), value_at-counts_of r qs)

-- No reference has two entries.
abbrev absent : Bytes → List (Bytes × ℕ) → Bool
absent r [] = true
absent r (e ∷ es) = not (same r (e.0)) && absent r es

abbrev OneEach : List (Bytes × ℕ) → Type 0
OneEach [] = Unit
OneEach (e ∷ es) = (absent (e.0) es ≡ true) × OneEach es

absent-bump :
    (r q : Bytes) (es : List (Bytes × ℕ)) → absent r (bump q es) ≡ (not (same r q) && absent r es)
unfolding bump
absent-bump r q [] = ground arith
absent-bump r q (e ∷ es) =
    ground (arith, same_iff q (e.0), same_iff r (e.0), same_iff r q, absent-bump r q es)

bump-OneEach : (q : Bytes) (es : List (Bytes × ℕ)) → OneEach es → OneEach (bump q es)
unfolding bump
bump-OneEach q [] h = (refl, tt)
bump-OneEach q (e ∷ es) h = elim (Bool-cases (same q (e.0))) [
  | inl hit ↦ rw hit (rw ((same_iff q (e.0)).0 hit) (h.0), h.1)
  | inr miss ↦ rw miss (
    ground (arith, absent-bump (e.0) q es, same_iff q (e.0), same_iff (e.0) q, h.0),
    bump-OneEach q es (h.1),
  )
]

counts_of-OneEach : (refs : List Bytes) → OneEach (counts_of refs)
unfolding counts_of
counts_of-OneEach [] = tt
counts_of-OneEach (q ∷ qs) = bump-OneEach q (counts_of qs) (counts_of-OneEach qs)

-- A map without a count of 0.
abbrev Positive : List (Bytes × ℕ) → Type 0
Positive = All (λ e. 0 < e.1)

bump-Positive : (q : Bytes) (es : List (Bytes × ℕ)) → Positive es → Positive (bump q es)
unfolding bump
bump-Positive q [] h = (omega arith, tt)
bump-Positive q (e ∷ es) h = elim (Bool-cases (same q (e.0))) [
  | inl hit ↦ rw hit (omega (arith, h.0), h.1)
  | inr miss ↦ rw miss (h.0, bump-Positive q es (h.1))
]

counts_of-Positive : (refs : List Bytes) → Positive (counts_of refs)
unfolding counts_of
counts_of-Positive [] = tt
counts_of-Positive (q ∷ qs) = bump-Positive q (counts_of qs) (counts_of-Positive qs)

absent-value_at : (r : Bytes) (es : List (Bytes × ℕ)) → absent r es ≡ true → value_at r es ≡ 0
absent-value_at r [] miss = refl
absent-value_at r (e ∷ es) miss = ground (arith, absent-value_at r es)

-- A map in which each count is n.
abbrev Uniform : ℕ → List (Bytes × ℕ) → Type 0
Uniform n = All (λ e. e.1 ≡ n)

value_at_tail :
    (n : ℕ) (r : Bytes) (e : Bytes × ℕ) (es : List (Bytes × ℕ))
    → absent (e.0) es ≡ true
    → (value_at r (e ∷ es) ≡ 0) ⊎ (value_at r (e ∷ es) ≡ n)
    → (value_at r es ≡ 0) ⊎ (value_at r es ≡ n)
value_at_tail n r e es one at = elim (Bool-cases (same r (e.0))) [
  | inl hit ↦ inl (absent-value_at r es (rw ((same_iff r (e.0)).0 hit) one))
  | inr miss ↦
      subst
        (λ b. ((if b then e.1 else value_at r es) ≡ 0) ⊎ ((if b then e.1 else value_at r es) ≡ n))
        miss at
]

values-Uniform :
    (n : ℕ) (es : List (Bytes × ℕ))
    → OneEach es
    → Positive es
    → ((r : Bytes) → (value_at r es ≡ 0) ⊎ (value_at r es ≡ n))
    → Uniform n es
values-Uniform n [] one some_of at = tt
values-Uniform n (e ∷ es) one some_of at = (
  ground (arith, same_refl (e.0), at (e.0), some_of.0),
  values-Uniform n es (one.1) (some_of.1) (λ r. value_at_tail n r e es (one.0) (at r)),
)

times-cases :
    (n : ℕ) (refs qs : List Bytes) (r : Bytes)
    → All (λ q. times q refs ≡ n) qs
    → (times r qs ≡ 0) ⊎ (times r refs ≡ n)
times-cases n refs [] r h = inl refl
times-cases n refs (q ∷ qs) r h = elim (Bool-cases (same r q)) [
  | inl hit ↦ inr (rw ((same_iff r q).0 hit) (h.0))
  | inr miss ↦ elim (times-cases n refs qs r (h.1)) [
    | inl never ↦ inl (rw miss (omega arith))
    | inr found ↦ inr found
  ]
]

counts_of-Uniform :
    (n : ℕ) (refs : List Bytes) → All (λ q. times q refs ≡ n) refs → Uniform n (counts_of refs)
counts_of-Uniform n refs h =
    values-Uniform n (counts_of refs) (counts_of-OneEach refs) (counts_of-Positive refs)
      (λ r. rw (value_at-counts_of r refs) (times-cases n refs refs r h))

freq_of-Uniform :
    (n : ℕ) (e : Bytes × ℕ) (es : List (Bytes × ℕ))
    → Uniform n (e ∷ es)
    → freq_of (e ∷ es) ≡ (n, suc (length es)) ∷ []
unfolding freq_of bump_count
freq_of-Uniform n e [] h = rw (h.0) refl
freq_of-Uniform n e (d ∷ es) h = rw (h.0) (rw (freq_of-Uniform n d es (h.1)) (ground arith))

is_empty-bump : (q : Bytes) (es : List (Bytes × ℕ)) → is_empty (bump q es) ≡ false
unfolding bump
is_empty-bump q [] = refl
is_empty-bump q (e ∷ es) = ground arith

mode_from-Uniform :
    (n : ℕ) (es : List (Bytes × ℕ))
    → is_empty es ≡ false
    → Uniform n es
    → mode_from 1 0 (freq_of es) ≡ n
unfolding mode_from
mode_from-Uniform n [] some_of h = ground arith
mode_from-Uniform n (e ∷ es) some_of h = rw (freq_of-Uniform n e es h) (ground arith)

is_empty-counts_of : (refs : List Bytes) → is_empty refs ≡ false → is_empty (counts_of refs) ≡ false
unfolding counts_of
is_empty-counts_of [] some_of = ground arith
is_empty-counts_of (q ∷ qs) some_of = is_empty-bump q (counts_of qs)

-- When some reference of the board, a frame's left out, stands in a board file, and each of them
-- stands n times in it, then the answer is a panel of n copies for n from 2 on, and else a single
-- board.
pub detect_panel_pcb_lem :
    (file : Bytes) (n : ℕ)
    → is_empty (board_refs file) ≡ false
    → All (λ r. times r (board_refs file) ≡ n) (board_refs file)
    → detect_panel_pcb file ≡ (if ltb n 2 then (1, false) else (n, true))
unfolding detect_panel_pcb detect_in
detect_panel_pcb_lem file n some_of each = rw some_of (
    ap verdict (
      mode_from-Uniform n (counts_of (board_refs file))
        (is_empty-counts_of (board_refs file) some_of)
        (counts_of-Uniform n (board_refs file) each)))
