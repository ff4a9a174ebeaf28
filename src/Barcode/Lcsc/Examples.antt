-- ===== src/Barcode/Lcsc/Examples.antt =====
-- A run on a code as LCSC prints it, and the round trip on a short one.
use firebin_api.Base.{◌≡◌, refl, true, [], ◌∷◌}
use firebin_api.Base.Int.{pos}
use firebin_api.Base.Bytes.{Bytes, codes}
use firebin_api.Base.Runes.{trim_space}
use firebin_api.Barcode.Lcsc.{parse, is_lcsc}
use firebin_api.Barcode.Lcsc.RoundTrip.{Says, IsField, render, parse-render-filled}

abbrev bag : Bytes
bag = codes " {pbn:PICK2305180048,pc:C12368,pm:MCP2515-I/SO,qty:30,mc:,cc:1}"

bag-is_lcsc : is_lcsc bag ≡ true
unfolding is_lcsc
bag-is_lcsc = refl

bag_quantity : (parse bag).quantity ≡ pos 30
unfolding parse
bag_quantity = refl

abbrev mpn_field : Bytes × Bytes
mpn_field = (codes "pm", codes "L7")

abbrev empty_field : Bytes × Bytes
empty_field = (codes "mc", [])

mpn_field-IsField : IsField mpn_field
unfolding trim_space
mpn_field-IsField = record {
  key_colon = (refl, (refl, tt));
  no_comma = (refl, (refl, (refl, (refl, (refl, tt)))));
  key_trimmed = refl;
  value_trimmed = refl;
}

empty_field-IsField : IsField empty_field
unfolding trim_space
empty_field-IsField = record {
  key_colon = (refl, (refl, tt));
  no_comma = (refl, (refl, (refl, tt)));
  key_trimmed = refl;
  value_trimmed = refl;
}

parse-render-filled_example :
    Says (mpn_field ∷ empty_field ∷ []) (parse (render mpn_field (empty_field ∷ [])))
parse-render-filled_example =
    parse-render-filled mpn_field (empty_field ∷ []) mpn_field-IsField (empty_field-IsField, tt)
