-- ===== src/Base/Runes.antt =====
-- Go strings that the source reads by runes, as lists of code points: white space, lower case,
-- trimming, and the numbers that `strconv.Atoi` reads.
use Prim.Native.Nat.{ℕ, ◌+◌, ◌-◌, ◌*◌, ◌^◌}
use mathlib.Core.Bool.{Bool, not, ◌&&◌, ◌||◌}
use mathlib.Core.List.{[], ◌∷◌}
use mathlib.Core.Option
use mathlib.Core.Option.{Option, none, some}
use firebin_api.Base.Int.{ℤ, pos, sub_ℕ}
use firebin_api.Base.Tests.{if◌then◌else◌, leb, ◌==◌}
use firebin_api.Base.Bytes.{Bytes, is_empty, lower_byte}

-- `unicode.IsSpace`.
unfoldable pub is_space : ℕ → Bool
is_space r =
    (leb 9 r && leb r 13)
    || r == 32
    || r == 133
    || r == 160
    || r == 5760
    || (leb 8192 r && leb r 8202)
    || r == 8232
    || r == 8233
    || r == 8239
    || r == 8287
    || r == 12288

unfoldable pub drop_space : Bytes → Bytes
unfolding is_space
drop_space [] = []
drop_space (r ∷ s) = if is_space r then drop_space s else r ∷ s

unfoldable pub trim_right : Bytes → Bytes
unfolding is_space
trim_right [] = []
trim_right (r ∷ s) = let t = trim_right s in if is_space r && is_empty t then [] else r ∷ t

-- `strings.TrimSpace`.
unfoldable pub trim_space : Bytes → Bytes
unfolding drop_space trim_right
trim_space s = trim_right (drop_space s)

-- The lower case of a rune, as far as it is an ASCII letter: the dotted capital I and the Kelvin
-- sign have ASCII letters for theirs, and no other rune outside ASCII has.
unfoldable pub lower_rune : ℕ → ℕ
lower_rune r = if r == 304 then 105 else if r == 8490 then 107 else lower_byte r

unfoldable pub is_decimal : ℕ → Bool
is_decimal r = leb 48 r && leb r 57

-- Decimal digits, none for another rune or for a number that is not below the limit.
unfoldable pub decimal_from : ℕ → ℕ → Bytes → Option ℕ
unfolding is_decimal
decimal_from limit n [] = some n
decimal_from limit n (r ∷ s) =
    let next = 10 * n + (r - 48) in
    let more = decimal_from limit next s in
    if is_decimal r && not (leb limit next) then more else none

unfoldable pub decimal : ℕ → Bytes → Option ℕ
unfolding decimal_from
decimal limit [] = none
decimal limit (r ∷ s) = decimal_from limit 0 (r ∷ s)

-- The integer that `strconv.Atoi` returns without an error: 64 bits, with or without a sign.
unfoldable pub atoi : Bytes → Option ℤ
unfolding decimal
atoi [] = none
atoi (r ∷ s) =
    if r == 45
    then Option.map (λ n. sub_ℕ 0 n) (decimal (2 ^ 63 + 1) s)
    else if r == 43
    then Option.map pos (decimal (2 ^ 63) s)
    else Option.map pos (decimal (2 ^ 63) (r ∷ s))
