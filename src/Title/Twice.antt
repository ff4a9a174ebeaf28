-- ===== src/Title/Twice.antt =====
-- What a title that is shown is like, and that cleaning it again leaves it as it is.
use firebin_api.Base.{
  ◌⊎◌, ◌||◌, ◌*◌, ◌≡◌, ◌≤◌, refl, true, false, [], length, arith, Bool-cases, inl, inr,
}
use firebin_api.Base.Bytes.{Bytes, is_empty}
use firebin_api.Title.{Tables, collapsed, refused, has_slash, counts, too_bare, clean_title}
use firebin_api.Title.Neat.{neat, collapsed-neat, collapsed-collapsed}

-- White space only as single blanks inside, from 3 to 200 code points, no slash, two letters, and
-- seven tenths of letters and digits.
abbrev pub IsShown : Tables → Bytes → Type 0
IsShown u t =
    (neat true t ≡ true)
    × ((3 ≤ length t) × (length t ≤ 200))
    × (has_slash t ≡ false)
    × (2 ≤ (counts u t).letters)
    × ((counts u t).dense * 7 ≤ (counts u t).alnum * 10)

refused-IsShown :
    (u : Tables) (t : Bytes)
    → refused u t ≡ false
    → (is_empty t || neat true t) ≡ true
    → IsShown u t
unfolding refused too_bare
refused-IsShown u t h tidy =
    (ground arith, (ground arith, ground arith), ground arith, ground arith, ground arith)

-- `CleanTitle` answers with the empty text, or with a title that has white space only as single
-- blanks inside, from 3 to 200 code points, no slash, at least two letters, and seven tenths of
-- letters and digits among what is no white space; and to clean that title again does not change it.
pub clean_title_lem :
    (u : Tables) (raw : Bytes)
    → (clean_title u raw ≡ [])
      ⊎ (IsShown u (clean_title u raw) × (clean_title u (clean_title u raw) ≡ clean_title u raw))
unfolding clean_title
clean_title_lem u raw = elim (Bool-cases (refused u (collapsed raw))) [
  | inl e ↦ inl (rw e refl)
  | inr e ↦ inr (
      rw e (
        refused-IsShown u (collapsed raw) e (collapsed-neat raw),
        rw (collapsed-collapsed raw) (rw e refl),
      ))
]
