-- ===== src/Barcode/Text.antt =====
-- The functions of Go's package strings that the label parsers call, on code points.
pub mod Join
use firebin_api.Base.{
  ℕ, Bool, true, false, not, ◌&&◌, ◌||◌, List, [], ◌∷◌, ◌++◌, if◌then◌else◌, ◌==◌, zero, suc,
  length,
}
use firebin_api.Base.Bytes.{Bytes, has_prefix, is_empty}
use firebin_api.Base.Sort.{reverse_onto}

abbrev pub among : Bytes → ℕ → Bool
among [] c = false
among (d ∷ ds) c = (d == c) || among ds c

abbrev pub drop : ℕ → Bytes → Bytes
drop zero s = s
drop (suc n) [] = []
drop (suc n) (c ∷ s) = drop n s

-- `strings.TrimPrefix` and `TrimSuffix`.
unfoldable pub trim_prefix : Bytes → Bytes → Bytes
trim_prefix p s = if has_prefix p s then drop (length p) s else s

abbrev pub reverse : Bytes → Bytes
reverse s = reverse_onto s []

abbrev pub has_suffix : Bytes → Bytes → Bool
has_suffix p s = has_prefix (reverse p) (reverse s)

abbrev pub contains : Bytes → Bytes → Bool
contains p [] = has_prefix p []
contains p (c ∷ s) = has_prefix p (c ∷ s) || contains p s

-- `strings.TrimLeft`, `TrimRight` and `Trim`, with the set of code points that go.
unfoldable pub trim_left : Bytes → Bytes → Bytes
trim_left set [] = []
trim_left set (c ∷ s) = if among set c then trim_left set s else c ∷ s

unfoldable pub trim_end : Bytes → Bytes → Bytes
trim_end set [] = []
trim_end set (c ∷ s) = let t = trim_end set s in if among set c && is_empty t then [] else c ∷ t

unfoldable pub trim : Bytes → Bytes → Bytes
unfolding trim_left trim_end
trim set s = trim_end set (trim_left set s)

-- The text before the first of a code point.
unfoldable pub before_first : ℕ → Bytes → Bytes
before_first c [] = []
before_first c (d ∷ s) = if d == c then [] else d ∷ before_first c s

-- `strings.Split` at one code point: the first piece, and the pieces after it.
unfoldable pub pieces : ℕ → Bytes → Bytes × List Bytes
pieces c [] = ([], [])
pieces c (d ∷ s) = let t = pieces c s in if d == c then ([], t.0 ∷ t.1) else (d ∷ t.0, t.1)

unfoldable pub split : ℕ → Bytes → List Bytes
unfolding pieces
split c s = (pieces c s).0 ∷ (pieces c s).1
