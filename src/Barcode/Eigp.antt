-- ===== src/Barcode/Eigp.antt =====
-- Data Matrix labels: internal/barcode/eigp114/eigp114.go, on code points.
pub mod Envelope
pub mod RoundTrip
pub mod Examples
use firebin_api.Base.{
  ℕ, ◌+◌, String, Bool, true, false, not, ◌&&◌, ◌||◌, List, [], ◌∷◌, Option, none, some,
  if◌then◌else◌, length, leb, ltb, zero, suc,
}
use firebin_api.Base.Bytes.{Bytes, codes, same, is_empty, has_prefix}
use firebin_api.Base.Runes.{trim_space, atoi}
use firebin_api.Base.Int.{ℤ, pos}
use firebin_api.Barcode.Text.{
  trim_prefix, trim_left, trim, before_first, split, has_suffix, contains, among, drop,
}
use firebin_api.Barcode.Label.{Parsed, no_fields, put}

abbrev pub rs : ℕ
rs = 30

abbrev pub gs : ℕ
gs = 29

abbrev pub eot : ℕ
eot = 4

-- The escape sequences of the function keys, ESC [ 1 9 ~ and its like.
abbrev pub key_f8 : Bytes
key_f8 = 27 ∷ codes "[19~"

abbrev pub key_f7 : Bytes
key_f7 = 27 ∷ codes "[18~"

abbrev pub key_f9 : Bytes
key_f9 = 27 ∷ codes "[20~"

-- The separator that a text starts with an escape sequence for.
unfoldable pub escape_at : Bytes → Option ℕ
escape_at s =
    if has_prefix key_f8 s
    then some gs
    else if has_prefix key_f7 s
    then some gs
    else if has_prefix key_f9 s
    then some rs
    else none

-- escSeparators.Replace: five code points become one; `skip` of them are still to be passed over.
unfoldable pub replace_from : ℕ → Bytes → Bytes
unfolding escape_at
replace_from skip [] = []
replace_from (suc skip) (c ∷ s) = replace_from skip s
replace_from zero (c ∷ s) =
    let passed = replace_from 4 s in
    let kept = replace_from 0 s in
    elim (escape_at (c ∷ s)) [ none ↦ c ∷ kept | some r ↦ r ∷ passed ]

abbrev pub data_identifiers : List String
data_identifiers =
    "30P" ∷ "10K" ∷ "11K" ∷ "12Z" ∷ "13Z" ∷ "20Z" ∷ "1P" ∷ "1K" ∷ "1T" ∷ "4L" ∷ "9D" ∷ "P" ∷ "Q"
    ∷ "K" ∷ "V" ∷ "S" ∷ "T" ∷ "D" ∷ "L" ∷ "E" ∷ []

unfoldable pub is_eigp : Bytes → Bool
is_eigp code =
    has_prefix (codes "[)>") code || among code gs || contains key_f8 code || contains key_f7 code

-- The first identifier of a list that is a prefix, and the rest of the token.
unfoldable pub split_at : List String → Bytes → Bytes × Bytes
split_at [] token = ([], [])
split_at (d ∷ ds) token =
    let later = split_at ds token in
    if has_prefix (codes d) token then (codes d, drop (length (codes d)) token) else later

unfoldable pub split_di : Bytes → Bytes × Bytes
unfolding split_at
split_di token = split_at data_identifiers token

abbrev or_zero : Option ℤ → ℤ
or_zero none = pos 0
or_zero (some n) = n

unfoldable pub parse_qty : Bytes → ℤ
unfolding trim_space atoi
parse_qty s = or_zero (atoi (trim_space s))

-- The `switch` of Parse.
unfoldable pub set_field : Bytes → Bytes → Parsed → Parsed
unfolding parse_qty
set_field di value p =
    if same di (codes "1P")
    then record p { mpn = value }
    else if same di (codes "P")
    then record p { customer_part = value }
    else if same di (codes "30P")
    then record p { distributor_part = value }
    else if same di (codes "Q")
    then record p { quantity = parse_qty value }
    else if same di (codes "1K")
    then record p { sales_order = value }
    else if same di (codes "10K")
    then record p { invoice = value }
    else if same di (codes "11K")
    then record p { packing_list = value }
    else if same di (codes "K")
    then record p { customer_po = value }
    else if same di (codes "9D")
    then record p { date_code = value }
    else if same di (codes "1T")
    then if same value (codes "N/T") then p else record p { lot_code = value }
    else if same di (codes "4L")
    then record p { country_of_origin = value }
    else p

unfoldable pub add_field : Bytes → Bytes → Parsed → Parsed
unfolding set_field put
add_field di value p = set_field di value (record p { fields = put di value p.fields })

-- One token, trimmed, with its identifier.
unfoldable pub add_token : Bytes → Parsed → Parsed
unfolding split_di add_field trim
add_token raw p =
    let token = trim (rs ∷ 13 ∷ 10 ∷ 32 ∷ []) raw in
    if is_empty token
    then p
    else if is_empty ((split_di token).0)
    then p
    else add_field ((split_di token).0) ((split_di token).1) p

unfoldable pub add_tokens : List Bytes → Parsed → Parsed
unfolding add_token
add_tokens [] p = p
add_tokens (t ∷ ts) p = add_tokens ts (add_token t p)

-- The number of bytes in UTF-8.
abbrev pub utf8_length : Bytes → ℕ
utf8_length [] = 0
utf8_length (r ∷ s) =
    (if ltb r 128 then 1 else if ltb r 2048 then 2 else if ltb r 65536 then 3 else 4)
    + utf8_length s

unfoldable pub guess_distributor : Parsed → Bytes
guess_distributor p =
    if has_suffix (codes "-ND") p.customer_part || has_prefix (codes "SO") p.sales_order
    then codes "digikey"
    else if has_prefix (codes "0") p.customer_part && leb 10 (utf8_length p.customer_part)
    then codes "mouser"
    else []

-- The text between the header and the trailer.
unfoldable pub body_of : Bytes → Bytes
unfolding replace_from trim_prefix trim_left trim before_first
body_of code = trim (rs ∷ gs ∷ []) (
    before_first eot (
      trim_prefix (codes "06")
        (trim_left (rs ∷ []) (trim_prefix (codes "[)>") (replace_from 0 code)))))

unfoldable pub with_distributor : Parsed → Parsed
unfolding guess_distributor
with_distributor p = record p { distributor = guess_distributor p }

unfoldable pub parse : Bytes → Parsed
unfolding with_distributor add_tokens split body_of
parse code = with_distributor (add_tokens (split gs (body_of code)) no_fields)
