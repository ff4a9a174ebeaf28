-- ===== src/Tags/Examples.antt =====
-- A connector that the dictionary knows, with ASCII tables for those of Unicode.
use firebin_api.Base.{ℕ, ◌≡◌, refl, Bool, ◌&&◌, ◌||◌, [], ◌∷◌, All, leb, arith}
use firebin_api.Base.Bytes.{Bytes, codes, lower_byte}
use firebin_api.Base.Runes.{is_space}
use firebin_api.Tags.{Unicode, Entry, Part, suggest, slug}
use firebin_api.Tags.Suggested.{IsNew, IsFresh, suggested, known, suggest_lem}
use firebin_api.Tags.Slugs.{Lawful, slug_lem, folded, IsFolded}

abbrev pub ascii_word : ℕ → Bool
ascii_word r = (leb 97 r && leb r 122) || (leb 48 r && leb r 57) || (leb 65 r && leb r 90)

abbrev pub ascii : Unicode
ascii = record { to_lower = lower_byte; is_word = ascii_word }

abbrev qwiic : Entry
qwiic = record {
  tags = codes "Qwiic" ∷ codes "STEMMA QT" ∷ [];
  why = codes "JST SH, 4 pins";
  mpn_prefixes = codes "SM04B" ∷ [];
  all_of = [];
}

abbrev connector : Part
connector = record {
  name = codes "Header";
  description = [];
  package_name = [];
  mpns = codes " sm04b-srss-tb" ∷ [];
  existing = codes "stemma-qt" ∷ [];
}

one_left :
    suggest ascii (qwiic ∷ []) connector
    ≡ record { tags = codes "Qwiic" ∷ []; why = codes "JST SH, 4 pins" } ∷ []
unfolding suggest
one_left = refl

suggest_lem_example :
    All (IsNew ascii connector) (suggest ascii (qwiic ∷ []) connector)
    × ((t : Bytes)
        → IsFresh ascii connector t
        → suggested t (suggest ascii (qwiic ∷ []) connector) ≡ known ascii connector t (qwiic ∷ []))
suggest_lem_example = suggest_lem ascii (qwiic ∷ []) connector

ascii-Lawful : Lawful ascii
unfolding is_space
ascii-Lawful = record {
  lower_twice = λ r. ground arith;
  space_lower = λ r h. ground (arith, h);
  no_space = λ r h. ground (arith, h);
}

slug_lem_example :
    (slug ascii (codes " STEMMA-QT") ≡ folded ascii (codes " STEMMA-QT"))
    × All (IsFolded ascii) (slug ascii (codes " STEMMA-QT"))
    × (slug ascii (slug ascii (codes " STEMMA-QT")) ≡ slug ascii (codes " STEMMA-QT"))
slug_lem_example = slug_lem ascii ascii-Lawful (codes " STEMMA-QT")
