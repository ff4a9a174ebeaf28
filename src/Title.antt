-- ===== src/Title.antt =====
-- Whether the title that a PDF declares is worth showing: `CleanTitle` of
-- internal/datasheets/title.go, on code points, for texts that are valid UTF-8. The tables of
-- Unicode are arguments.
pub mod Neat
pub mod Twice
pub mod Examples
use firebin_api.Base.{
  ℕ, suc, ◌+◌, ◌*◌, Bool, true, false, ◌||◌, List, [], ◌∷◌, map, if◌then◌else◌, ltb, length,
}
use firebin_api.Base.Bytes.{Bytes, codes, has_prefix, is_empty}
use firebin_api.Base.Runes.{is_space}
use firebin_api.Tags.{member}
use firebin_api.Barcode.Text.{among, has_suffix, trim}
use firebin_api.HttpLib.Mapping.{words, join_blank}

pub record Tables : Type 0 where
  pub to_lower : ℕ → ℕ
  pub is_letter : ℕ → Bool
  pub is_digit : ℕ → Bool

abbrev pub title_suffixes : List Bytes
title_suffixes =
    codes ".doc"
    ∷ codes ".docx"
    ∷ codes ".pdf"
    ∷ codes ".fm"
    ∷ codes ".book"
    ∷ codes ".indd"
    ∷ codes ".qxd"
    ∷ codes ".cdr"
    ∷ codes ".ai"
    ∷ codes ".ps"
    ∷ codes ".eps"
    ∷ codes ".tex"
    ∷ codes ".odt"
    ∷ codes ".rtf"
    ∷ codes ".xls"
    ∷ codes ".xlsx"
    ∷ codes ".pptx"
    ∷ codes ".vsd"
    ∷ []

abbrev pub title_placeholders : List Bytes
title_placeholders =
    codes "untitled"
    ∷ codes "untitled document"
    ∷ codes "unknown"
    ∷ codes "document"
    ∷ codes "document1"
    ∷ codes "no title"
    ∷ codes "title"
    ∷ codes "microsoft word"
    ∷ codes "pdf document"
    ∷ codes "adobe acrobat"
    ∷ codes "newdoc"
    ∷ codes "unnamed"
    ∷ codes "print"
    ∷ []

-- A blank, a tab, a hyphen, an en and an em dash, an underscore, a middle dot and a bar.
abbrev pub cutset : Bytes
cutset = 32 ∷ 9 ∷ 45 ∷ 8211 ∷ 8212 ∷ 95 ∷ 183 ∷ 124 ∷ []

-- The white space collapsed, and the ends trimmed.
unfoldable pub collapsed : Bytes → Bytes
unfolding words trim
collapsed raw = trim cutset (join_blank (words raw))

unfoldable pub ends_in : List Bytes → Bytes → Bool
ends_in [] t = false
ends_in (s ∷ ss) t = has_suffix s t || ends_in ss t

-- `strings.ContainsAny(t, "/\\")`.
unfoldable pub has_slash : Bytes → Bool
has_slash [] = false
has_slash (c ∷ t) = among (47 ∷ 92 ∷ []) c || has_slash t

-- The letters of a text, its letters and digits, and all that is no white space.
pub record Counts : Type 0 where
  pub letters : ℕ
  pub alnum : ℕ
  pub dense : ℕ

unfoldable pub count_rune : Tables → ℕ → Counts → Counts
unfolding is_space
count_rune u r n =
    if is_space r
    then n
    else if u.is_letter r
    then record { letters = suc n.letters; alnum = suc n.alnum; dense = suc n.dense }
    else if u.is_digit r
    then record { letters = n.letters; alnum = suc n.alnum; dense = suc n.dense }
    else record { letters = n.letters; alnum = n.alnum; dense = suc n.dense }

unfoldable pub counts : Tables → Bytes → Counts
unfolding count_rune
counts u [] = record { letters = 0; alnum = 0; dense = 0 }
counts u (r ∷ t) = count_rune u r (counts u t)

-- `letters < 2 || alnum*10 < dense*7`.
unfoldable pub too_bare : Tables → Bytes → Bool
unfolding counts
too_bare u t =
    ltb ((counts u t).letters) 2 || ltb ((counts u t).alnum * 10) ((counts u t).dense * 7)

-- The tests of a title whose ends are trimmed, in the order of the code.
unfoldable pub refused : Tables → Bytes → Bool
unfolding ends_in has_slash too_bare
refused u t =
    let lower = map u.to_lower t in
    is_empty t
    || ltb (length t) 3
    || ltb 200 (length t)
    || member lower title_placeholders
    || has_prefix (codes "microsoft ") lower
    || has_prefix (codes "powerpoint ") lower
    || ends_in title_suffixes lower
    || has_slash t
    || too_bare u t

unfoldable pub clean_title : Tables → Bytes → Bytes
unfolding collapsed refused
clean_title u raw = if refused u (collapsed raw) then [] else collapsed raw
