-- ===== src/Base/Compare.antt =====
-- Three-way comparisons: how they compose, and the order of texts by code points (Go's `<`).
use Prim.Native.Nat.{ℕ, compare, Ordering}
use Prim.Native.Char.{code}
use Prim.Native.String.{String, [], ◌∷◌}
pub use Prim.Native.String.{then as and_then}
use mathlib.Core.Path.{◌≡◌, refl}
use mathlib.Core.Bool.{Bool, true, false}
use native.Mathlib.Omega.{arith}

abbrev pub is_lt : Ordering → Bool
is_lt Ordering.lt = true
is_lt Ordering.eq = false
is_lt Ordering.gt = false

-- How a comparison of a with c follows from those of a with b and of b with c.
abbrev pub Follows : Ordering → Ordering → Ordering → Type 0
Follows Ordering.eq q r = r ≡ q
Follows Ordering.lt Ordering.eq r = r ≡ Ordering.lt
Follows Ordering.lt Ordering.lt r = r ≡ Ordering.lt
Follows Ordering.lt Ordering.gt r = Unit
Follows Ordering.gt Ordering.eq r = r ≡ Ordering.gt
Follows Ordering.gt Ordering.gt r = r ≡ Ordering.gt
Follows Ordering.gt Ordering.lt r = Unit

before_lt : (q : Ordering) → Follows Ordering.lt q Ordering.lt
before_lt Ordering.lt = refl
before_lt Ordering.eq = refl
before_lt Ordering.gt = tt

before_gt : (q : Ordering) → Follows Ordering.gt q Ordering.gt
before_gt Ordering.lt = tt
before_gt Ordering.eq = refl
before_gt Ordering.gt = refl

after_lt : (p : Ordering) → Follows p Ordering.lt Ordering.lt
after_lt Ordering.lt = refl
after_lt Ordering.eq = refl
after_lt Ordering.gt = tt

after_gt : (p : Ordering) → Follows p Ordering.gt Ordering.gt
after_gt Ordering.lt = tt
after_gt Ordering.eq = refl
after_gt Ordering.gt = refl

pub and_then-Follows :
    (p q r p' q' r' : Ordering)
    → Follows p q r
    → Follows p' q' r'
    → Follows (and_then p p') (and_then q q') (and_then r r')
and_then-Follows Ordering.eq Ordering.eq r p' q' r' h h' = rw h h'
and_then-Follows Ordering.eq Ordering.lt r p' q' r' h h' = rw h (after_lt p')
and_then-Follows Ordering.eq Ordering.gt r p' q' r' h h' = rw h (after_gt p')
and_then-Follows Ordering.lt Ordering.eq r p' q' r' h h' = rw h (before_lt q')
and_then-Follows Ordering.lt Ordering.lt r p' q' r' h h' = rw h refl
and_then-Follows Ordering.lt Ordering.gt r p' q' r' h h' = tt
and_then-Follows Ordering.gt Ordering.eq r p' q' r' h h' = rw h (before_gt q')
and_then-Follows Ordering.gt Ordering.gt r p' q' r' h h' = rw h refl
and_then-Follows Ordering.gt Ordering.lt r p' q' r' h h' = tt

pub compare-Follows : (a b c : ℕ) → Follows (compare a b) (compare b c) (compare a c)
compare-Follows a b c = ground arith

-- Go's order of strings, as a comparison.
abbrev pub compare_text : String → String → Ordering
compare_text [] [] = Ordering.eq
compare_text [] (d ∷ t) = Ordering.lt
compare_text (c ∷ s) [] = Ordering.gt
compare_text (c ∷ s) (d ∷ t) = and_then (compare (code c) (code d)) (compare_text s t)

pub compare_text-Follows :
    (s t u : String) → Follows (compare_text s t) (compare_text t u) (compare_text s u)
compare_text-Follows [] [] u = refl
compare_text-Follows [] (d ∷ t) [] = tt
compare_text-Follows [] (d ∷ t) (e ∷ u) = before_lt (compare_text (d ∷ t) (e ∷ u))
compare_text-Follows (c ∷ s) [] [] = refl
compare_text-Follows (c ∷ s) [] (e ∷ u) = tt
compare_text-Follows (c ∷ s) (d ∷ t) [] = after_gt (compare_text (c ∷ s) (d ∷ t))
compare_text-Follows (c ∷ s) (d ∷ t) (e ∷ u) =
    and_then-Follows (compare (code c) (code d)) (compare (code d) (code e))
      (compare (code c) (code e)) (compare_text s t) (compare_text t u) (compare_text s u)
      (compare-Follows (code c) (code d) (code e)) (compare_text-Follows s t u)

compare_refl : (n : ℕ) → compare n n ≡ Ordering.eq
compare_refl n = ground arith

pub compare_text_refl : (s : String) → compare_text s s ≡ Ordering.eq
compare_text_refl [] = refl
compare_text_refl (c ∷ s) = rw (compare_refl (code c)) (compare_text_refl s)
