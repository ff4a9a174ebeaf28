-- ===== src/Barcode/Lcsc/RoundTrip.antt =====
-- An LCSC code that is written from fields reads back.
use firebin_api.Base.{
  ℕ, ◌≡◌, refl, ap, ◌∙◌, sym, subst, false, [], ◌∷◌, ◌++◌, map, if◌then◌else◌, All, arith,
  Bool-cases, inl, inr, Option, none, some,
}
use firebin_api.Base.Bytes.{Bytes, codes, same, is_empty}
use firebin_api.Base.Runes.{trim_space, trim_right, drop_space, is_space}
use firebin_api.Base.Sort.{reverse_onto}
use firebin_api.Barcode.Text.{split, trim_prefix}
use firebin_api.Barcode.Text.Join.{Lacks, join_to, split-join_to}
use firebin_api.Barcode.Label.{Parsed, no_fields, Fields, put, get}
use firebin_api.Barcode.Label.Lookup.{last_value, get-put}
use firebin_api.Barcode.Lcsc.{
  cut, set_quantity, set_field, add_field, add_pair, add_pairs, drop_last, trim_brace, parse,
}

abbrev pub pair_of : Bytes × Bytes → Bytes
pair_of f = f.0 ++ 58 ∷ f.1

-- A field that a code can carry: no comma in it, no colon in its key, no white space at its ends.
pub record IsField (f : Bytes × Bytes) : Type 0 where
  pub key_colon : Lacks 58 (f.0)
  pub no_comma : Lacks 44 (pair_of f)
  pub key_trimmed : trim_space (f.0) ≡ f.0
  pub value_trimmed : trim_space (f.1) ≡ f.1

abbrev pub render : Bytes × Bytes → Fields → Bytes
render f fs = 123 ∷ join_to 44 (pair_of f) (map pair_of fs) ++ 125 ∷ []

cut-append : (c : ℕ) (k v : Bytes) → Lacks c k → cut c (k ++ c ∷ v) ≡ some (k, v)
unfolding cut
cut-append c [] v h = ground arith
cut-append c (d ∷ k) v h = rw (h.0, cut-append c k v h.1) refl

snoc_full : (s : Bytes) (c : ℕ) → is_empty (s ++ c ∷ []) ≡ false
snoc_full [] c = refl
snoc_full (d ∷ s) c = refl

trim_right-end : (s : Bytes) (c : ℕ) → is_space c ≡ false → trim_right (s ++ c ∷ []) ≡ s ++ c ∷ []
unfolding trim_right
trim_right-end [] c h = rw h refl
trim_right-end (d ∷ s) c h = rw (trim_right-end s c h, snoc_full s c) (ground arith)

reverse_onto-end : (s out : Bytes) (c : ℕ) → reverse_onto (s ++ c ∷ []) out ≡ c ∷ reverse_onto s out
reverse_onto-end [] out c = refl
reverse_onto-end (d ∷ s) out c = reverse_onto-end s (d ∷ out) c

drop_last-end : (s : Bytes) (c : ℕ) → drop_last (s ++ c ∷ []) ≡ s
drop_last-end [] c = refl
drop_last-end (d ∷ []) c = refl
drop_last-end (d ∷ e ∷ s) c = ap (λ t. d ∷ t) (drop_last-end (e ∷ s) c)

trim_brace-end : (s : Bytes) → trim_brace (s ++ 125 ∷ []) ≡ s
unfolding trim_brace
trim_brace-end s = rw (reverse_onto-end s [] 125) (drop_last-end s 125)

braces_go :
    (text : Bytes)
    → trim_brace (trim_prefix (codes "{") (trim_space (123 ∷ text ++ 125 ∷ []))) ≡ text
unfolding trim_space drop_space trim_prefix is_space
braces_go text =
    ap (λ t. trim_brace (trim_prefix (codes "{") t)) (trim_right-end (123 ∷ text) 125 refl)
    ∙ trim_brace-end text

unfoldable pub add_fields : Fields → Parsed → Parsed
unfolding add_field
add_fields [] p = p
add_fields (f ∷ fs) p = add_fields fs (add_field (f.0) (f.1) p)

add_pair-pair_of :
    (f : Bytes × Bytes) (p : Parsed)
    → IsField f
    → add_pair (cut 58 (pair_of f)) p ≡ add_field (f.0) (f.1) p
unfolding add_pair
add_pair-pair_of f p h =
    ap (λ o. add_pair o p) (cut-append 58 (f.0) (f.1) h.key_colon)
    ∙ ap (λ k. add_field k (trim_space (f.1)) p) h.key_trimmed
    ∙ ap (λ v. add_field (f.0) v p) h.value_trimmed

add_pairs-map :
    (fs : Fields) (p : Parsed) → All IsField fs → add_pairs (map pair_of fs) p ≡ add_fields fs p
unfolding add_pairs add_fields
add_pairs-map [] p h = refl
add_pairs-map (f ∷ fs) p h =
    ap (add_pairs (map pair_of fs)) (add_pair-pair_of f p h.0)
    ∙ add_pairs-map fs (add_field (f.0) (f.1) p) h.1

-- The fields that are not empty.
abbrev pub filled : Fields → Fields
filled [] = []
filled (f ∷ fs) = if is_empty (f.1) then filled fs else f ∷ filled fs

set_field-fields : (k v : Bytes) (p : Parsed) → (set_field k v p).fields ≡ p.fields
unfolding set_field set_quantity
set_field-fields k v p = ground arith

mpn-set_field :
    (k v : Bytes) (p : Parsed)
    → some (set_field k v p).mpn ≡ (if same k (codes "pm") then some v else some p.mpn)
unfolding set_field set_quantity
mpn-set_field k v p = ground arith

get-add_field :
    (j k v : Bytes) (p : Parsed)
    → get j (add_field k v p).fields
      ≡ (if is_empty v then get j p.fields else if same k j then some v else get j p.fields)
unfolding add_field
get-add_field j k [] p = refl
get-add_field j k (c ∷ v) p =
    ap (get j) (set_field-fields k (c ∷ v) (record p { fields = put k (c ∷ v) p.fields }))
    ∙ get-put j k (c ∷ v) p.fields

mpn-add_field :
    (k v : Bytes) (p : Parsed)
    → some (add_field k v p).mpn
      ≡ (if is_empty v then some p.mpn else if same k (codes "pm") then some v else some p.mpn)
unfolding add_field
mpn-add_field k [] p = refl
mpn-add_field k (c ∷ v) p = mpn-set_field k (c ∷ v) (record p { fields = put k (c ∷ v) p.fields })

-- A value that is empty is passed over.
last_value-filled :
    (k : Bytes) (f : Bytes × Bytes) (fs : Fields) (old : Option Bytes)
    → last_value k
        (filled fs)
        (if is_empty (f.1) then old else if same (f.0) k then some (f.1) else old)
      ≡ last_value k (filled (f ∷ fs)) old
last_value-filled k f fs old = elim (Bool-cases (is_empty (f.1))) [
  | inl e ↦ rw e refl
  | inr e ↦ rw e refl
]

get-add_fields :
    (k : Bytes) (fs : Fields) (p : Parsed)
    → get k (add_fields fs p).fields ≡ last_value k (filled fs) (get k p.fields)
unfolding add_fields
get-add_fields k [] p = refl
get-add_fields k (f ∷ fs) p =
    get-add_fields k fs (add_field (f.0) (f.1) p)
    ∙ ap (last_value k (filled fs)) (get-add_field k (f.0) (f.1) p)
    ∙ last_value-filled k f fs (get k p.fields)

mpn-add_fields :
    (fs : Fields) (p : Parsed)
    → some (add_fields fs p).mpn ≡ last_value (codes "pm") (filled fs) (some p.mpn)
unfolding add_fields
mpn-add_fields [] p = refl
mpn-add_fields (f ∷ fs) p =
    mpn-add_fields fs (add_field (f.0) (f.1) p)
    ∙ ap (last_value (codes "pm") (filled fs)) (mpn-add_field (f.0) (f.1) p)
    ∙ last_value-filled (codes "pm") f fs (some p.mpn)

abbrev lcsc_label : Parsed
lcsc_label = record no_fields { distributor = codes "lcsc" }

commas : (fs : Fields) → All IsField fs → All (Lacks 44) (map pair_of fs)
commas [] h = tt
commas (f ∷ fs) h = (h.0.no_comma, commas fs h.1)

parse-render :
    (f : Bytes × Bytes) (fs : Fields)
    → IsField f
    → All IsField fs
    → parse (render f fs) ≡ add_fields (f ∷ fs) lcsc_label
unfolding parse
parse-render f fs h hs =
    ap (λ t. add_pairs (split 44 t) lcsc_label)
      (braces_go (join_to 44 (pair_of f) (map pair_of fs)))
    ∙ ap (λ ts. add_pairs ts lcsc_label)
        (split-join_to 44 (pair_of f) (map pair_of fs) h.no_comma (commas fs hs))
    ∙ add_pairs-map (f ∷ fs) lcsc_label (h, hs)

-- What a code says: the last value of each key that is not empty, that of pm as the MPN.
pub record Says (fs : Fields) (p : Parsed) : Type 0 where
  pub fields_of : (k : Bytes) → get k p.fields ≡ last_value k (filled fs) none
  pub mpn_of : some p.mpn ≡ last_value (codes "pm") (filled fs) (some [])

-- A code in braces, whose fields have no comma, no colon in the key and no white space at the ends,
-- reads back: each key has its last value that is not empty, the MPN is that of pm.
pub parse-render-filled :
    (f : Bytes × Bytes) (fs : Fields)
    → IsField f
    → All IsField fs
    → Says (f ∷ fs) (parse (render f fs))
unfolding add_fields get
parse-render-filled f fs h hs = subst (Says (f ∷ fs)) (sym (parse-render f fs h hs)) record {
  fields_of = λ k. get-add_fields k (f ∷ fs) lcsc_label;
  mpn_of = mpn-add_fields (f ∷ fs) lcsc_label;
}
