-- ===== src/Tags.antt =====
-- The dictionary of tag suggestions: internal/tags/dictionary.go. Texts are lists of code points; the
-- tables of Unicode and the entries of dictionary.json are arguments.
pub mod Suggested
pub mod Slugs
pub mod Examples
use firebin_api.Base.{
  ℕ, Bool, true, false, not, ◌&&◌, ◌||◌, List, [], ◌∷◌, ◌++◌, map, if◌then◌else◌,
}
use firebin_api.Base.Bytes.{Bytes, same, has_prefix, is_empty}
use firebin_api.Base.Runes.{trim_space}
use firebin_api.Barcode.Text.{contains}

-- `unicode.ToLower`, and `unicode.IsLetter` or `unicode.IsDigit`.
pub record Unicode : Type 0 where
  pub to_lower : ℕ → ℕ
  pub is_word : ℕ → Bool

pub record Entry : Type 0 where
  pub tags : List Bytes
  pub why : Bytes
  pub mpn_prefixes : List Bytes
  pub all_of : List Bytes

pub record Part : Type 0 where
  pub name : Bytes
  pub description : Bytes
  pub package_name : Bytes
  pub mpns : List Bytes
  pub existing : List Bytes

pub record Suggestion : Type 0 where
  pub tags : List Bytes
  pub why : Bytes

-- `strings.ToLower`.
unfoldable pub lower_text : Unicode → Bytes → Bytes
lower_text u s = map u.to_lower s

unfoldable pub only_words : Unicode → Bytes → Bytes
only_words u [] = []
only_words u (r ∷ s) = if u.is_word r then r ∷ only_words u s else only_words u s

unfoldable pub slug : Unicode → Bytes → Bytes
unfolding trim_space lower_text only_words
slug u s = only_words u (lower_text u (trim_space s))

abbrev pub member : Bytes → List Bytes → Bool
member k [] = false
member k (t ∷ ts) = same k t || member k ts

-- The keys of the map `have`.
unfoldable pub slugs : Unicode → List Bytes → List Bytes
unfolding slug
slugs u [] = []
slugs u (t ∷ ts) = slug u t ∷ slugs u ts

unfoldable pub any_prefixed : Bytes → List Bytes → Bool
any_prefixed p [] = false
any_prefixed p (m ∷ ms) = has_prefix p m || any_prefixed p ms

unfoldable pub prefix_matches : Unicode → List Bytes → List Bytes → Bool
unfolding lower_text any_prefixed
prefix_matches u [] mpns = false
prefix_matches u (p ∷ ps) mpns = any_prefixed (lower_text u p) mpns || prefix_matches u ps mpns

unfoldable pub all_terms : Unicode → List Bytes → Bytes → Bool
unfolding lower_text
all_terms u [] hay = true
all_terms u (t ∷ ts) hay = contains (lower_text u t) hay && all_terms u ts hay

unfoldable pub matches : Unicode → Entry → Bytes → List Bytes → Bool
unfolding prefix_matches all_terms
matches u e hay mpns =
    prefix_matches u e.mpn_prefixes mpns || (not (is_empty e.all_of) && all_terms u e.all_of hay)

-- The tags that the part does not have in any spelling.
unfoldable pub fresh_tags : Unicode → List Bytes → List Bytes → List Bytes
unfolding slug
fresh_tags u have [] = []
fresh_tags u have (t ∷ ts) =
    let rest = fresh_tags u have ts in if member (slug u t) have then rest else t ∷ rest

-- The text that is searched for terms, and the part numbers, all in lower case.
unfoldable pub hay_of : Unicode → Part → Bytes
unfolding lower_text
hay_of u p = lower_text u (p.name ++ 32 ∷ p.description ++ 32 ∷ p.package_name)

unfoldable pub mpns_of : Unicode → List Bytes → List Bytes
unfolding lower_text trim_space
mpns_of u [] = []
mpns_of u (m ∷ ms) = lower_text u (trim_space m) ∷ mpns_of u ms

unfoldable pub suggest_from :
    Unicode → List Bytes → Bytes → List Bytes → List Entry → List Suggestion
unfolding matches fresh_tags
suggest_from u have hay mpns [] = []
suggest_from u have hay mpns (e ∷ es) =
    let rest = suggest_from u have hay mpns es in
    let fresh = fresh_tags u have e.tags in
    if not (matches u e hay mpns)
    then rest
    else if is_empty fresh
    then rest
    else record { tags = fresh; why = e.why } ∷ rest

unfoldable pub suggest : Unicode → List Entry → Part → List Suggestion
unfolding suggest_from slugs hay_of mpns_of
suggest u dictionary p =
    suggest_from u (slugs u p.existing) (hay_of u p) (mpns_of u p.mpns) dictionary
