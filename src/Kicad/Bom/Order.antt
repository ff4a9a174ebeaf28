-- ===== src/Kicad/Bom/Order.antt =====
-- The order of reference designators: `refLess` and `splitRef` of internal/kicad/bom.go.
use Prim.Native.Nat.{compare, Ordering}
use firebin_api.Base.{ℕ, ◌+◌, ◌-◌, ◌*◌, ◌^◌, Bool, not, ◌&&◌, [], ◌∷◌, leb, if◌then◌else◌, ◌≡◌}
use firebin_api.Base.Compare.{and_then, is_lt}
use firebin_api.Base.Sort.{IsAsymmetric}
use firebin_api.Base.Bytes.{
  Bytes, compare_bytes, flip, and_then-flip, compare-flip, compare_bytes-flip, is_lt-flip,
}

unfoldable pub is_digit : ℕ → Bool
is_digit c = leb 48 c && leb c 57

-- The number that `strconv.Atoi` returns with whatever error, for a text that is empty or starts
-- with a digit: 0 for a text that is no number, the largest integer past the range. The digits
-- are read into an unsigned integer of 64 bits, whose overflow ends the reading.
unfoldable pub atoi_from : ℕ → Bytes → ℕ
unfolding is_digit
atoi_from n [] = if leb (2 ^ 63) n then 2 ^ 63 - 1 else n
atoi_from n (c ∷ s) =
    let next = 10 * n + (c - 48) in
    let more = atoi_from next s in
    if not (is_digit c) then 0 else if leb (2 ^ 64) next then 2 ^ 63 - 1 else more

-- The letters before the first digit, and the number.
unfoldable pub ref_prefix : Bytes → Bytes
unfolding is_digit
ref_prefix [] = []
ref_prefix (c ∷ s) = if is_digit c then [] else c ∷ ref_prefix s

unfoldable pub ref_number : Bytes → ℕ
unfolding is_digit atoi_from
ref_number [] = 0
ref_number (c ∷ s) = if is_digit c then atoi_from 0 (c ∷ s) else ref_number s

-- The pair that splitRef returns, compared as refLess compares it.
unfoldable pub compare_refs : Bytes → Bytes → Ordering
unfolding ref_prefix ref_number
compare_refs a b =
    and_then (compare_bytes (ref_prefix a) (ref_prefix b)) (compare (ref_number a) (ref_number b))

unfoldable pub ref_less : Bytes → Bytes → Bool
unfolding compare_refs
ref_less a b = is_lt (compare_refs a b)

compare_refs-flip : (a b : Bytes) → compare_refs b a ≡ flip (compare_refs a b)
unfolding compare_refs
compare_refs-flip a b =
    rw
      (compare_bytes-flip (ref_prefix a) (ref_prefix b), compare-flip (ref_number a) (ref_number b))
      (and_then-flip (compare_bytes (ref_prefix a) (ref_prefix b))
        (compare (ref_number a) (ref_number b)))

pub ref_less-IsAsymmetric : IsAsymmetric ref_less
unfolding ref_less
ref_less-IsAsymmetric a b h = rw (compare_refs-flip a b) (is_lt-flip (compare_refs a b) h)
