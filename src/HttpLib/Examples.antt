-- ===== src/HttpLib/Examples.antt =====
-- A resistor in the library, and a refresh in which one part cannot be read.
use firebin_api.Base.{◌≡◌, refl, [], ◌∷◌, none, some, ok, err, if◌then◌else◌}
use firebin_api.Base.Bytes.{codes, same}
use firebin_api.Base.Int.{pos, negsuc}
use firebin_api.Tags.Examples.{ascii}
use firebin_api.HttpLib.Source
use firebin_api.HttpLib.Mapping.{fuse_si_prefix, keywords_for}
use firebin_api.HttpLib.Mapping.Part.{format_qty}
use firebin_api.HttpLib.Mapping.Loop.{IsPartOf, drawn, drawn-IsPartOf}
use firebin_api.HttpLib.Snapshot.{Catalogue}

abbrev resistor : Source.Part
resistor = record {
  id = codes "p1";
  category_id = some (codes "c1");
  name = codes "RC0603";
  description = none;
  ipn = some (codes "FB-1");
  package_name = some (codes "0603");
  kicad_symbol = some (codes "Device:R");
  kicad_footprint = some (codes "R_0603");
  keywords = some (codes "thick film");
  tags = codes "Thick" ∷ [];
  total_stock = pos 250500;
  parameters =
      record {
        template_name = codes "resistance";
        units = some (codes "kOhm");
        value = codes "100";
      }
      ∷ [];
  manufacturer_parts = [];
  primary_mpn = codes "RC0603FR";
  primary_manufacturer = codes " Yageo ";
}

kilo : fuse_si_prefix (codes "100") (107 ∷ 937 ∷ []) ≡ codes "100k"
unfolding fuse_si_prefix
kilo = refl

words_once : keywords_for ascii resistor ≡ codes "thick film 0603 FB-1 RC0603FR"
unfolding keywords_for
words_once = refl

stock_text : format_qty (pos 250500) ≡ codes "25.05"
unfolding format_qty
stock_text = refl

debt_text : format_qty (negsuc 9999) ≡ codes "-1"
unfolding format_qty
debt_text = refl

drawn-IsPartOf_example :
    IsPartOf ascii resistor (codes "Resistors") (drawn ascii resistor (codes "Resistors"))
drawn-IsPartOf_example = drawn-IsPartOf ascii resistor (codes "Resistors")

abbrev other : Source.Part
other = record resistor { id = codes "p2" }

abbrev catalogue : Catalogue
catalogue = record {
  categories = ok (record { id = codes "c1"; name = codes "Resistors"; path = [] } ∷ []);
  parts = ok (resistor ∷ other ∷ []);
  part = λ k. if same k (codes "p1") then ok resistor else err (codes "gone");
}
