-- ===== src/Base/Bytes.antt =====
-- Go strings as lists of bytes: literals, equality, prefixes and the lower case of ASCII letters.
use Prim.Native.Char.{code}
use Prim.Native.Nat.{ℕ, ◌+◌, compare, Ordering}
use Prim.Native.String.{String}
use mathlib.Core.Path.{◌≡◌, refl}
use mathlib.Core.Logic.{◌↔◌}
use mathlib.Core.Bool.{Bool, true, false, ◌&&◌}
use mathlib.Core.List.{List, [], ◌∷◌, map}
use native.Mathlib.Omega.{arith}
use firebin_api.Base.Compare.{and_then, is_lt}
use firebin_api.Base.Tests.{if◌then◌else◌, leb}

abbrev pub Bytes : Type 0
Bytes = List ℕ

-- The bytes of an ASCII literal.
abbrev pub codes : String → Bytes
codes String.[] = []
codes (String.◌∷◌ c s) = code c ∷ codes s

abbrev pub same : Bytes → Bytes → Bool
same [] [] = true
same [] (d ∷ t) = false
same (c ∷ s) [] = false
same (c ∷ s) (d ∷ t) = elim (compare c d) [ Ordering.eq ↦ same s t | _ ↦ false ]

abbrev pub is_empty {ℓ} : {A : Type ℓ} → List A → Bool
is_empty [] = true
is_empty (x ∷ xs) = false

abbrev pub has_prefix : Bytes → Bytes → Bool
has_prefix [] s = true
has_prefix (p ∷ ps) [] = false
has_prefix (p ∷ ps) (c ∷ s) = elim (compare p c) [ Ordering.eq ↦ has_prefix ps s | _ ↦ false ]

abbrev pub lower_byte : ℕ → ℕ
lower_byte c = if leb 65 c && leb c 90 then c + 32 else c

abbrev pub lower : Bytes → Bytes
lower s = map lower_byte s

pub same_iff : (s t : Bytes) → (same s t ≡ true) ↔ (s ≡ t)
same_iff [] [] = grind arith
same_iff [] (d ∷ t) = grind arith
same_iff (c ∷ s) [] = grind arith
same_iff (c ∷ s) (d ∷ t) = grind (arith, same_iff s t)

pub same_refl : (s : Bytes) → same s s ≡ true
same_refl s = (same_iff s s).1 refl

-- Go's order of strings.
abbrev pub compare_bytes : Bytes → Bytes → Ordering
compare_bytes [] [] = Ordering.eq
compare_bytes [] (d ∷ t) = Ordering.lt
compare_bytes (c ∷ s) [] = Ordering.gt
compare_bytes (c ∷ s) (d ∷ t) = and_then (compare c d) (compare_bytes s t)

abbrev pub flip : Ordering → Ordering
flip Ordering.lt = Ordering.gt
flip Ordering.eq = Ordering.eq
flip Ordering.gt = Ordering.lt

pub and_then-flip : (p q : Ordering) → and_then (flip p) (flip q) ≡ flip (and_then p q)
and_then-flip Ordering.lt q = refl
and_then-flip Ordering.eq q = refl
and_then-flip Ordering.gt q = refl

pub compare-flip : (a b : ℕ) → compare b a ≡ flip (compare a b)
compare-flip a b = ground arith

pub compare_bytes-flip : (s t : Bytes) → compare_bytes t s ≡ flip (compare_bytes s t)
compare_bytes-flip [] [] = refl
compare_bytes-flip [] (d ∷ t) = refl
compare_bytes-flip (c ∷ s) [] = refl
compare_bytes-flip (c ∷ s) (d ∷ t) =
    rw (compare-flip c d, compare_bytes-flip s t) (and_then-flip (compare c d) (compare_bytes s t))

pub is_lt-flip : (q : Ordering) → is_lt q ≡ true → is_lt (flip q) ≡ false
is_lt-flip Ordering.lt h = refl
is_lt-flip Ordering.eq h = cc
is_lt-flip Ordering.gt h = cc
