-- ===== src/Base/Sort.antt =====
-- Go's insertion sort, which `sort.Slice` and `sort.SliceStable` use on short slices: an entry moves
-- to the left while it is less than the one before it.
use Prim.Native.Nat.{ℕ, ◌+◌}
use mathlib.Core.Path.{◌≡◌}
use mathlib.Core.Bool.{Bool, true, false}
use mathlib.Core.List.{List, [], ◌∷◌}
use mathlib.Core.Logic.{inl, inr}
use native.Mathlib.Omega.{arith}
use firebin_api.Base.Tests.{if◌then◌else◌, Bool-cases}
use firebin_api.Base.Lists.{All}

module _ {A : Type 0} (less : A → A → Bool) where
  -- The entries sorted so far, the last one first.
  abbrev pub insert : A → List A → List A
  insert x [] = x ∷ []
  insert x (y ∷ ys) = if less x y then y ∷ insert x ys else x ∷ y ∷ ys

  abbrev pub insert_all : List A → List A → List A
  insert_all [] acc = acc
  insert_all (x ∷ xs) acc = insert_all xs (insert x acc)

  abbrev pub InOrder : List A → Type 0
  InOrder [] = Unit
  InOrder (x ∷ []) = Unit
  InOrder (x ∷ y ∷ ys) = (less y x ≡ false) × InOrder (y ∷ ys)

  abbrev Falling : List A → Type 0
  Falling [] = Unit
  Falling (x ∷ []) = Unit
  Falling (x ∷ y ∷ ys) = (less x y ≡ false) × Falling (y ∷ ys)

  abbrev pub IsAsymmetric : Type 0
  IsAsymmetric = (x y : A) → less x y ≡ true → less y x ≡ false

abbrev pub reverse_onto : {A : Type 0} → List A → List A → List A
reverse_onto [] out = out
reverse_onto (x ∷ xs) out = reverse_onto xs (x ∷ out)

abbrev pub sort_by : {A : Type 0} → (A → A → Bool) → List A → List A
sort_by less xs = reverse_onto (insert_all less xs []) []

abbrev pub sum_of : {A : Type 0} → (A → ℕ) → List A → ℕ
sum_of m [] = 0
sum_of m (x ∷ xs) = m x + sum_of m xs

module _ {A : Type 0} (m : A → ℕ) where
  sum_of-reverse_onto :
      (xs out : List A) → sum_of m (reverse_onto xs out) ≡ sum_of m xs + sum_of m out
  sum_of-reverse_onto [] out = omega arith
  sum_of-reverse_onto (x ∷ xs) out = omega (arith, sum_of-reverse_onto xs (x ∷ out))

  sum_of-insert :
      (less : A → A → Bool) (x : A) (ys : List A) → sum_of m (insert less x ys) ≡ m x + sum_of m ys
  sum_of-insert less x [] = omega arith
  sum_of-insert less x (y ∷ ys) = ground (arith, sum_of-insert less x ys)

  sum_of-insert_all :
      (less : A → A → Bool) (xs acc : List A)
      → sum_of m (insert_all less xs acc) ≡ sum_of m xs + sum_of m acc
  sum_of-insert_all less [] acc = omega arith
  sum_of-insert_all less (x ∷ xs) acc =
      omega (arith, sum_of-insert_all less xs (insert less x acc), sum_of-insert less x acc)

  pub sum_of-sort_by :
      (less : A → A → Bool) (xs : List A) → sum_of m (sort_by less xs) ≡ sum_of m xs
  sum_of-sort_by less xs =
      omega (arith, sum_of-reverse_onto (insert_all less xs []) [], sum_of-insert_all less xs [])

module _ {A : Type 0} (P : A → Type 0) (less : A → A → Bool) where
  All-reverse_onto : (xs out : List A) → All P xs → All P out → All P (reverse_onto xs out)
  All-reverse_onto [] out h k = k
  All-reverse_onto (x ∷ xs) out h k = All-reverse_onto xs (x ∷ out) h.1 (h.0, k)

  All-insert : (x : A) (ys : List A) → P x → All P ys → All P (insert less x ys)
  All-insert x [] hx h = (hx, tt)
  All-insert x (y ∷ ys) hx h = elim (Bool-cases (less x y)) [
    | inl e ↦ rw e (h.0, All-insert x ys hx h.1)
    | inr e ↦ rw e (hx, h)
  ]

  All-insert_all : (xs acc : List A) → All P xs → All P acc → All P (insert_all less xs acc)
  All-insert_all [] acc h k = k
  All-insert_all (x ∷ xs) acc h k =
      All-insert_all xs (insert less x acc) h.1 (All-insert x acc h.0 k)

  pub All-sort_by : (xs : List A) → All P xs → All P (sort_by less xs)
  All-sort_by xs h = All-reverse_onto (insert_all less xs []) [] (All-insert_all xs [] h tt) tt

module _ {A : Type 0} (less : A → A → Bool) where
  -- The first entry, if there is one, and x stand in order.
  abbrev Above : A → List A → Type 0
  Above x [] = Unit
  Above x (y ∷ ys) = less x y ≡ false

  cons-Falling : (x : A) (ys : List A) → Above x ys → Falling less ys → Falling less (x ∷ ys)
  cons-Falling x [] h k = tt
  cons-Falling x (y ∷ ys) h k = (h, k)

  Falling-tail : (x : A) (ys : List A) → Falling less (x ∷ ys) → Above x ys × Falling less ys
  Falling-tail x [] h = (tt, tt)
  Falling-tail x (y ∷ ys) h = h

  insert-Above :
      (x y : A) (ys : List A) → less y x ≡ false → Above y ys → Above y (insert less x ys)
  insert-Above x y [] e h = e
  insert-Above x y (z ∷ ys) e h = elim (Bool-cases (less x z)) [ inl q ↦ rw q h | inr q ↦ rw q e ]

  insert-Falling :
      IsAsymmetric less → (x : A) (ys : List A) → Falling less ys → Falling less (insert less x ys)
  insert-Falling asym x [] h = tt
  insert-Falling asym x (y ∷ ys) h = elim (Bool-cases (less x y)) [
    | inl q ↦ rw q (
        cons-Falling y (insert less x ys) (insert-Above x y ys (asym x y q) (Falling-tail y ys h).0)
          (insert-Falling asym x ys (Falling-tail y ys h).1))
    | inr q ↦ rw q (q, h)
  ]

  insert_all-Falling :
      IsAsymmetric less
      → (xs acc : List A) → Falling less acc
      → Falling less (insert_all less xs acc)
  insert_all-Falling asym [] acc h = h
  insert_all-Falling asym (x ∷ xs) acc h =
      insert_all-Falling asym xs (insert less x acc) (insert-Falling asym x acc h)

  -- `out` may stand after x.
  abbrev Below : A → List A → Type 0
  Below x [] = Unit
  Below x (y ∷ ys) = less y x ≡ false

  cons-InOrder : (x : A) (ys : List A) → Below x ys → InOrder less ys → InOrder less (x ∷ ys)
  cons-InOrder x [] h k = tt
  cons-InOrder x (y ∷ ys) h k = (h, k)

  reverse_onto-InOrder :
      (x : A) (xs out : List A)
      → Falling less (x ∷ xs)
      → InOrder less (x ∷ out)
      → InOrder less (reverse_onto xs (x ∷ out))
  reverse_onto-InOrder x [] out h k = k
  reverse_onto-InOrder x (y ∷ xs) out h k = reverse_onto-InOrder y xs (x ∷ out) h.1 (h.0, k)

  reverse-InOrder : (xs : List A) → Falling less xs → InOrder less (reverse_onto xs [])
  reverse-InOrder [] h = tt
  reverse-InOrder (x ∷ xs) h = reverse_onto-InOrder x xs [] h tt

  pub sort_by-InOrder : IsAsymmetric less → (xs : List A) → InOrder less (sort_by less xs)
  sort_by-InOrder asym xs =
      reverse-InOrder (insert_all less xs []) (insert_all-Falling asym xs [] tt)
