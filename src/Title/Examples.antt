-- ===== src/Title/Examples.antt =====
-- Titles of data sheets, with ASCII tables for those of Unicode.
use firebin_api.Base.{◌⊎◌, ◌≡◌, refl, ◌&&◌, ◌||◌, [], ◌∷◌, ◌++◌, leb}
use firebin_api.Base.Bytes.{Bytes, codes, lower_byte}
use firebin_api.Title.{Tables, clean_title}
use firebin_api.Title.Twice.{IsShown, clean_title_lem}

abbrev ascii : Tables
ascii = record {
  to_lower = lower_byte;
  is_letter = λ r. (leb 97 r && leb r 122) || (leb 65 r && leb r 90);
  is_digit = λ r. leb 48 r && leb r 57;
}

-- A title with a line break in it, an em dash before it and a bar after it.
abbrev declared : Bytes
declared = 8212 ∷ codes " ESP32-C6" ++ 10 ∷ codes "  Series Datasheet |"

declared_title : clean_title ascii declared ≡ codes "ESP32-C6 Series Datasheet"
unfolding clean_title
declared_title = refl

filename : clean_title ascii (codes "Datasheet_v1.DOC") ≡ []
unfolding clean_title
filename = refl

clean_title_lem_example :
    (clean_title ascii declared ≡ [])
    ⊎ (IsShown ascii (clean_title ascii declared)
        × (clean_title ascii (clean_title ascii declared) ≡ clean_title ascii declared))
clean_title_lem_example = clean_title_lem ascii declared
