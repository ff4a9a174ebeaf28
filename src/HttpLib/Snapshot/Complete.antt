-- ===== src/HttpLib/Snapshot/Complete.antt =====
-- A refresh that succeeds puts every part that was read under its category, and shows the
-- categories that have parts.
use firebin_api.Base.{◌≡◌, ◌⊎◌, List, [], ◌∷◌, ◌++◌, Option, some, if◌then◌else◌, Outcome, ok, err}
use firebin_api.Base.Bytes.{Bytes, same, is_empty}
use firebin_api.Tags.{Unicode}
use firebin_api.HttpLib.Source
use firebin_api.HttpLib.Types
use firebin_api.HttpLib.Mapping.Part.{map_part, map_category}
use firebin_api.HttpLib.Snapshot.{
  Catalogue, Snapshot, uncategorized_id, uncategorized, find, parts_in, category_names, category_of,
  or_blank,
}

-- What a part that was read is shown as.
abbrev pub shown_as : Unicode → Bytes → List Source.Category → Source.Part → Types.Part
shown_as u marker cats p =
    map_part u p (or_blank (find (category_of p) (category_names cats []))) marker

-- A part that was read, if it is of category k.
abbrev pub shelved :
    Unicode → Bytes → List Source.Category → Bytes → Outcome Bytes Source.Part → List Types.Part
shelved u marker cats k (err e) = []
shelved u marker cats k (ok full) =
    if same k (category_of full) then shown_as u marker cats full ∷ [] else []

-- The rows of category k that can be read, in order, as they are shown.
abbrev pub shelf :
    Unicode
    → Bytes
    → List Source.Category
    → (Bytes → Outcome Bytes Source.Part)
    → Bytes
    → List Source.Part
    → List Types.Part
shelf u marker cats detail k [] = []
shelf u marker cats detail k (row ∷ rows) =
    shelved u marker cats k (detail row.id) ++ shelf u marker cats detail k rows

module _ (u : Unicode) (marker : Bytes) (cats : List Source.Category)
    (detail : Bytes → Outcome Bytes Source.Part) where
  -- The categories that are shown: those with parts, and the synthetic one if it has some.
  abbrev pub filled : List Source.Category → List Source.Part → List Types.Category
  filled [] rows =
      if is_empty (shelf u marker cats detail uncategorized_id rows) then [] else uncategorized ∷ []
  filled (c ∷ cs) rows =
      let rest = filled cs rows in
      if is_empty (shelf u marker cats detail c.id rows) then rest else map_category c ∷ rest

-- The catalogue of these categories and rows.
pub record IsCatalogue (u : Unicode) (marker : Bytes) (src : Catalogue)
    (cats : List Source.Category) (rows : List Source.Part) (s : Snapshot) : Type 0 where
  pub shelves : (k : Bytes) → parts_in k s.by_category ≡ shelf u marker cats src.part k rows
  pub shown : s.categories ≡ filled u marker cats src.part cats rows

-- What a refresh did: it failed and changed nothing, or it read the catalogue.
abbrev pub Refreshed : Unicode → Bytes → Catalogue → Option Snapshot → Option Snapshot → Type 0
Refreshed u marker src old new =
    ((e : Bytes) × ((src.categories ≡ err e) ⊎ (src.parts ≡ err e)) × (new ≡ old))
    ⊎ ((cats : List Source.Category) × (rows : List Source.Part) × (s : Snapshot) × (src.categories
          ≡ ok cats)
        × (src.parts ≡ ok rows)
        × (new ≡ some s)
        × IsCatalogue u marker src cats rows s)
