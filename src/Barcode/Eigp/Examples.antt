-- ===== src/Barcode/Eigp/Examples.antt =====
-- Runs on labels as distributors print them, and the round trip on one of them.
use firebin_api.Base.{◌≡◌, refl, [], ◌∷◌, ◌++◌}
use firebin_api.Base.Int.{pos}
use firebin_api.Base.Bytes.{Bytes, codes}
use firebin_api.Barcode.Eigp.{parse, split_di, rs, gs, eot, key_f8, is_eigp, true}
use firebin_api.Barcode.Eigp.RoundTrip.{Says, IsField, render, parse-render-Says}

-- A bag of Digi-Key, scanned by a keyboard wedge that types F8 for one of the separators.
abbrev digikey : Bytes
digikey =
    codes "[)>"
    ++ rs ∷ codes "06"
    ++ key_f8
    ++ codes "P296-1234-ND"
    ++ gs ∷ codes "1PLM317 "
    ++ gs ∷ codes "Q 25 "
    ++ gs ∷ codes "1TN/T"
    ++ rs ∷ eot ∷ codes "Q7"

digikey-is_eigp : is_eigp digikey ≡ true
unfolding is_eigp
digikey-is_eigp = refl

digikey_quantity : (parse digikey).quantity ≡ pos 25
unfolding parse
digikey_quantity = refl

digikey_distributor : (parse digikey).distributor ≡ codes "digikey"
unfolding parse
digikey_distributor = refl

abbrev mpn_field : Bytes × Bytes
mpn_field = (codes "1P", codes "L7")

abbrev quantity_field : Bytes × Bytes
quantity_field = (codes "Q", codes "25")

mpn_field-IsField : IsField mpn_field
unfolding split_di
mpn_field-IsField = record {
  found = refl;
  known = refl;
  no_gs = (refl, (refl, (refl, (refl, tt))));
  no_eot = (refl, (refl, (refl, (refl, tt))));
  no_escape = (refl, (refl, (refl, (refl, tt))));
  starts = refl;
  ends = refl;
}

quantity_field-IsField : IsField quantity_field
unfolding split_di
quantity_field-IsField = record {
  found = refl;
  known = refl;
  no_gs = (refl, (refl, (refl, tt)));
  no_eot = (refl, (refl, (refl, tt)));
  no_escape = (refl, (refl, (refl, tt)));
  starts = refl;
  ends = refl;
}

parse-render-Says_example :
    Says (mpn_field ∷ quantity_field ∷ []) (parse (render mpn_field (quantity_field ∷ [])))
parse-render-Says_example =
    parse-render-Says mpn_field (quantity_field ∷ []) mpn_field-IsField (quantity_field-IsField, tt)
