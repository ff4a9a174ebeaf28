-- ===== src/HttpLib/Mapping.antt =====
-- A part as KiCad sees it: internal/kicad/httplib/mapping.go.
pub mod Part
pub mod Loop
use firebin_api.Base.{
  ℕ, zero, suc, ◌+◌, ◌/◌, ◌%◌, String, Bool, true, false, not, ◌&&◌, ◌||◌, List, [], ◌∷◌, ◌++◌, map,
  Option, none, some, if◌then◌else◌, ◌==◌, ltb, length,
}
use firebin_api.Base.Bytes.{Bytes, codes, same, is_empty, lower_byte}
use firebin_api.Base.Runes.{trim_space, is_space, is_decimal}
use firebin_api.Base.Int.{ℤ, pos, negsuc}
use firebin_api.Tags.{Unicode, lower_text, member}
use firebin_api.Barcode.Text.{contains, has_suffix, reverse, drop}
use firebin_api.HttpLib.Source
use firebin_api.HttpLib.Source.{deref, Parameter, ManufacturerPart, SupplierPart}
use firebin_api.HttpLib.Types
use firebin_api.HttpLib.Types.{Field, FieldMap}

-- The category's part of a name, and the parameter that is the value of its symbols.
abbrev pub value_rules : List (String × String)
value_rules =
    ("resistor", "Resistance") ∷ ("capacitor", "Capacitance") ∷ ("inductor", "Inductance") ∷ []

-- Both omegas, and the spellings of the units.
abbrev pub base_units : List Bytes
base_units =
    (937 ∷ [])
    ∷ (8486 ∷ [])
    ∷ codes "ohms"
    ∷ codes "ohm"
    ∷ codes "Ohms"
    ∷ codes "Ohm"
    ∷ codes "F"
    ∷ codes "H"
    ∷ []

-- `strings.EqualFold` with an ASCII text: the long s and the Kelvin sign fold to ASCII letters.
unfoldable pub fold_rune : ℕ → ℕ
fold_rune r = if r == 383 then 115 else if r == 8490 then 107 else lower_byte r

unfoldable pub equal_fold : Bytes → Bytes → Bool
unfolding fold_rune
equal_fold s t = same (map fold_rune s) (map fold_rune t)

-- `strings.TrimSuffix` of a suffix that is there.
abbrev pub drop_end : Bytes → Bytes → Bytes
drop_end p s = reverse (drop (length p) (reverse s))

unfoldable pub strip_unit : List Bytes → Bytes → Bytes
strip_unit [] u = u
strip_unit (b ∷ bs) u = if has_suffix b u then drop_end b u else strip_unit bs u

abbrev last_is_digit : Bytes → Bool
last_is_digit [] = false
last_is_digit (c ∷ []) = is_decimal c
last_is_digit (c ∷ d ∷ s) = last_is_digit (d ∷ s)

abbrev pub si_letters : List Bytes
si_letters = map (λ r. r ∷ []) (codes "mMnpfGTcd")

-- The `switch` over what is left of the unit.
unfoldable pub with_prefix : Bytes → Bytes → Bytes
with_prefix value u =
    if member u ((181 ∷ []) ∷ (956 ∷ []) ∷ codes "u" ∷ codes "U" ∷ [])
    then value ++ codes "u"
    else if member u (codes "k" ∷ codes "K" ∷ [])
    then value ++ codes "k"
    else if member u si_letters
    then value ++ u
    else value

unfoldable pub fuse_si_prefix : Bytes → Bytes → Bytes
unfolding trim_space strip_unit with_prefix is_decimal
fuse_si_prefix value units =
    if is_empty (trim_space units)
    then value
    else if not (last_is_digit value)
    then value
    else with_prefix value (trim_space (strip_unit base_units (trim_space units)))

-- The first parameter of that name that has a value.
unfoldable pub parameter_value : Bytes → List Parameter → Option Bytes
unfolding equal_fold trim_space fuse_si_prefix deref
parameter_value wanted [] = none
parameter_value wanted (p ∷ ps) =
    let later = parameter_value wanted ps in
    if not (equal_fold (trim_space p.template_name) wanted)
    then later
    else if is_empty (trim_space p.value)
    then later
    else some (fuse_si_prefix (trim_space p.value) (deref p.units))

abbrev pub first_of : Option Bytes → Option Bytes → Option Bytes
first_of none later = later
first_of (some v) later = some v

-- The loop over the rules, for a category name in lower case.
unfoldable pub rule_value : List (String × String) → Bytes → List Parameter → Option Bytes
unfolding parameter_value
rule_value [] cat ps = none
rule_value (r ∷ rules) cat ps =
    let later = rule_value rules cat ps in
    if contains (codes (r.0)) cat then first_of (parameter_value (codes (r.1)) ps) later else later

abbrev pub or_name : Bytes → Option Bytes → Bytes
or_name name none = name
or_name name (some v) = v

unfoldable pub value_for : Unicode → Source.Part → Bytes → Bytes
unfolding rule_value lower_text
value_for u p category_name =
    or_name p.name (rule_value value_rules (lower_text u category_name) p.parameters)

-- `strings.Fields`: the token at the start, and the tokens after it.
unfoldable pub tokens : Bytes → Bytes × List Bytes
unfolding is_space
tokens [] = ([], [])
tokens (r ∷ s) =
    let t = tokens s in
    if is_space r then ([], if is_empty (t.0) then t.1 else t.0 ∷ t.1) else (r ∷ t.0, t.1)

unfoldable pub words : Bytes → List Bytes
unfolding tokens
words s = let t = tokens s in if is_empty (t.0) then t.1 else t.0 ∷ t.1

-- The texts whose tokens are keywords, in order.
unfoldable pub supplier_texts : List SupplierPart → List Bytes
supplier_texts [] = []
supplier_texts (sp ∷ sps) = sp.sku ∷ supplier_texts sps

unfoldable pub manufacturer_texts : List ManufacturerPart → List Bytes
unfolding supplier_texts deref
manufacturer_texts [] = []
manufacturer_texts (mp ∷ mps) =
    mp.mpn ∷ deref mp.manufacturer_name ∷ supplier_texts mp.supplier_parts ++ manufacturer_texts mps

unfoldable pub keyword_texts : Source.Part → List Bytes
unfolding manufacturer_texts deref
keyword_texts p =
    deref p.keywords ∷ deref p.package_name ∷ deref p.ipn ∷ p.primary_mpn ∷ p.tags
    ++ manufacturer_texts p.manufacturer_parts

unfoldable pub all_words : List Bytes → List Bytes
unfolding words
all_words [] = []
all_words (t ∷ ts) = words t ++ all_words ts

-- The tokens that are new in lower case; `seen` are those before.
unfoldable pub new_words : Unicode → List Bytes → List Bytes → List Bytes
unfolding lower_text
new_words u seen [] = []
new_words u seen (w ∷ ws) =
    let skipped = new_words u seen ws in
    let added = new_words u (lower_text u w ∷ seen) ws in
    if member (lower_text u w) seen then skipped else w ∷ added

-- `strings.Join` with a blank.
abbrev pub join_blank : List Bytes → Bytes
join_blank [] = []
join_blank (w ∷ []) = w
join_blank (w ∷ v ∷ ws) = w ++ 32 ∷ join_blank (v ∷ ws)

unfoldable pub keywords_for : Unicode → Source.Part → Bytes
unfolding new_words all_words keyword_texts
keywords_for u p = join_blank (new_words u [] (all_words (keyword_texts p)))

-- The first of two texts that is not empty.
abbrev pub or_text : Bytes → Bytes → Bytes
or_text [] other = other
or_text (c ∷ s) other = c ∷ s

abbrev pub first_mpn : List ManufacturerPart → Bytes
first_mpn [] = []
first_mpn (mp ∷ mps) = mp.mpn

unfoldable pub first_manufacturer : List ManufacturerPart → Bytes
unfolding deref
first_manufacturer [] = []
first_manufacturer (mp ∷ mps) = deref mp.manufacturer_name

unfoldable pub mpn_for : Source.Part → Bytes
unfolding trim_space
mpn_for p = or_text (trim_space (first_mpn p.manufacturer_parts)) (trim_space p.primary_mpn)

unfoldable pub manufacturer_for : Source.Part → Bytes
unfolding trim_space first_manufacturer
manufacturer_for p =
    or_text (trim_space (first_manufacturer p.manufacturer_parts))
      (trim_space p.primary_manufacturer)

unfoldable pub datasheet_for : List ManufacturerPart → Bytes
unfolding trim_space deref
datasheet_for [] = []
datasheet_for (mp ∷ mps) = or_text (trim_space (deref mp.datasheet_url)) (datasheet_for mps)
