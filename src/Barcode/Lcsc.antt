-- ===== src/Barcode/Lcsc.antt =====
-- QR codes of LCSC: internal/barcode/lcsc/lcsc.go, on code points.
pub mod RoundTrip
pub mod Examples
use firebin_api.Base.{
  ℕ, Bool, true, false, ◌&&◌, ◌||◌, List, [], ◌∷◌, Option, none, some, if◌then◌else◌, ◌==◌,
}
use firebin_api.Base.Bytes.{Bytes, codes, same, is_empty, has_prefix}
use firebin_api.Base.Runes.{trim_space, atoi}
use firebin_api.Base.Int.{ℤ}
use firebin_api.Barcode.Text.{
  trim_prefix, split, has_suffix, contains, among, before_first, reverse, pieces,
}
use firebin_api.Barcode.Label.{Parsed, no_fields, put}

unfoldable pub is_lcsc : Bytes → Bool
unfolding trim_space
is_lcsc code =
    let c = trim_space code in
    has_prefix (codes "{") c
    && has_suffix (codes "}") c
    && (contains (codes "pm:") c || contains (codes "pc:") c)

-- `strings.Cut` at the first of a code point.
unfoldable pub cut : ℕ → Bytes → Option (Bytes × Bytes)
cut c [] = none
cut c (d ∷ s) =
    let rest = cut c s in
    if d == c then some ([], s) else elim rest [ none ↦ none | some kv ↦ some (d ∷ kv.0, kv.1) ]

unfoldable pub set_quantity : Option ℤ → Parsed → Parsed
set_quantity none p = p
set_quantity (some n) p = record p { quantity = n }

unfoldable pub set_field : Bytes → Bytes → Parsed → Parsed
unfolding atoi set_quantity
set_field k v p =
    if same k (codes "pm")
    then record p { mpn = v }
    else if same k (codes "pc")
    then record p { customer_part = v }
    else if same k (codes "qty")
    then set_quantity (atoi v) p
    else if same k (codes "on")
    then record p { sales_order = v }
    else p

unfoldable pub add_field : Bytes → Bytes → Parsed → Parsed
unfolding set_field put
add_field k v p = if is_empty v then p else set_field k v (record p { fields = put k v p.fields })

unfoldable pub add_pair : Option (Bytes × Bytes) → Parsed → Parsed
unfolding add_field trim_space
add_pair none p = p
add_pair (some kv) p = add_field (trim_space (kv.0)) (trim_space (kv.1)) p

unfoldable pub add_pairs : List Bytes → Parsed → Parsed
unfolding add_pair cut
add_pairs [] p = p
add_pairs (t ∷ ts) p = add_pairs ts (add_pair (cut 58 t) p)

abbrev pub drop_last : Bytes → Bytes
drop_last [] = []
drop_last (c ∷ []) = []
drop_last (c ∷ d ∷ s) = c ∷ drop_last (d ∷ s)

-- `strings.TrimSuffix` of one code point.
unfoldable pub trim_brace : Bytes → Bytes
trim_brace s = if has_suffix (codes "}") s then drop_last s else s

unfoldable pub parse : Bytes → Parsed
unfolding add_pairs split trim_brace trim_prefix trim_space
parse code =
    add_pairs (split 44 (trim_brace (trim_prefix (codes "{") (trim_space code))))
      (record no_fields { distributor = codes "lcsc" })
