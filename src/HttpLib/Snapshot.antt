-- ===== src/HttpLib/Snapshot.antt =====
-- The catalogue that is served, and its refresh: internal/kicad/httplib/snapshot.go. The logging and the
-- time at which a snapshot was built are left out.
pub mod Complete
use firebin_api.Base.{
  ℕ, Bool, true, false, List, [], ◌∷◌, ◌++◌, Option, none, some, if◌then◌else◌, Outcome, ok, err,
}
use firebin_api.Base.Bytes.{Bytes, codes, same, is_empty}
use firebin_api.Tags.{Unicode}
use firebin_api.HttpLib.Source
use firebin_api.HttpLib.Types
use firebin_api.HttpLib.Mapping.Part.{map_part, map_category}

-- The interface `Source`: what each of its methods answers.
pub record Catalogue : Type 0 where
  pub categories : Outcome Bytes (List Source.Category)
  pub parts : Outcome Bytes (List Source.Part)
  pub part : Bytes → Outcome Bytes Source.Part

pub record Snapshot : Type 0 where
  pub categories : List Types.Category
  pub by_category : List (Bytes × List Types.Part)
  pub by_id : List (Bytes × Types.Part)

abbrev pub empty_snapshot : Snapshot
empty_snapshot = record { categories = []; by_category = []; by_id = [] }

abbrev pub uncategorized_id : Bytes
uncategorized_id = codes "uncategorized"

-- A map assigned and read by key.
abbrev pub assign : {A : Type 0} → Bytes → A → List (Bytes × A) → List (Bytes × A)
assign k v [] = (k, v) ∷ []
assign k v (e ∷ es) = if same k (e.0) then (k, v) ∷ es else e ∷ assign k v es

abbrev pub find : {A : Type 0} → Bytes → List (Bytes × A) → Option A
find k [] = none
find k (e ∷ es) = if same k (e.0) then some (e.1) else find k es

abbrev pub or_none : {A : Type 0} → Option (List A) → List A
or_none none = []
or_none (some xs) = xs

-- `ByCategory[k]`, no parts without an entry.
abbrev pub parts_in : Bytes → List (Bytes × List Types.Part) → List Types.Part
parts_in k by = or_none (find k by)

abbrev or_blank : Option Bytes → Bytes
or_blank none = []
or_blank (some v) = v

unfoldable pub category_names : List Source.Category → List (Bytes × Bytes) → List (Bytes × Bytes)
category_names [] names = names
category_names (c ∷ cs) names = category_names cs (assign c.id c.name names)

-- The category of a part, the synthetic one without an id.
unfoldable pub category_of : Source.Part → Bytes
category_of p = elim (p.category_id) [
  | none ↦ uncategorized_id
  | some k ↦ if is_empty k then uncategorized_id else k
]

-- One part that was read.
unfoldable pub add_part : Unicode → Bytes → List (Bytes × Bytes) → Source.Part → Snapshot → Snapshot
unfolding category_of map_part
add_part u marker names p s =
    let k = category_of p in
    let mapped = map_part u p (or_blank (find k names)) marker in
    record s {
      by_id = assign mapped.id mapped s.by_id;
      by_category = assign k (parts_in k s.by_category ++ mapped ∷ []) s.by_category;
    }

-- One round of the loop over the rows; a part that cannot be read is skipped.
unfoldable pub add_read :
    Unicode → Bytes → List (Bytes × Bytes) → Outcome Bytes Source.Part → Snapshot → Snapshot
unfolding add_part
add_read u marker names (err e) s = s
add_read u marker names (ok full) s = add_part u marker names full s

unfoldable pub add_parts :
    Unicode
    → Bytes
    → List (Bytes × Bytes)
    → (Bytes → Outcome Bytes Source.Part)
    → List Source.Part
    → Snapshot
    → Snapshot
unfolding add_read
add_parts u marker names detail [] s = s
add_parts u marker names detail (row ∷ rows) s =
    add_parts u marker names detail rows (add_read u marker names (detail row.id) s)

-- Categories without parts are left out.
unfoldable pub filled_categories :
    List Source.Category → List (Bytes × List Types.Part) → List Types.Category
unfolding map_category
filled_categories [] by = []
filled_categories (c ∷ cs) by =
    let rest = filled_categories cs by in
    if is_empty (parts_in c.id by) then rest else map_category c ∷ rest

abbrev pub uncategorized : Types.Category
uncategorized = record {
  id = uncategorized_id;
  name = codes "Uncategorized";
  description = codes "Parts with no FireBin category";
}

unfoldable pub last_category : List (Bytes × List Types.Part) → List Types.Category
last_category by = if is_empty (parts_in uncategorized_id by) then [] else uncategorized ∷ []

unfoldable pub snapshot_of :
    Unicode
    → Bytes
    → List Source.Category
    → (Bytes → Outcome Bytes Source.Part)
    → List Source.Part
    → Snapshot
unfolding category_names add_parts filled_categories last_category
snapshot_of u marker cats detail rows =
    let s = add_parts u marker (category_names cats []) detail rows empty_snapshot in
    record s { categories = filled_categories cats s.by_category ++ last_category s.by_category }

-- The cache holds no snapshot before the first refresh that succeeds; a failed one changes nothing.
abbrev pub refresh_rows :
    Unicode
    → Bytes
    → Catalogue
    → List Source.Category
    → Outcome Bytes (List Source.Part)
    → Option Snapshot
    → Option Snapshot
unfolding snapshot_of
refresh_rows u marker src cats (err e) old = old
refresh_rows u marker src cats (ok rows) old = some (snapshot_of u marker cats src.part rows)

abbrev pub refresh_from :
    Unicode
    → Bytes
    → Catalogue
    → Outcome Bytes (List Source.Category)
    → Option Snapshot
    → Option Snapshot
refresh_from u marker src (err e) old = old
refresh_from u marker src (ok cats) old = refresh_rows u marker src cats src.parts old

unfoldable pub refresh : Unicode → Bytes → Catalogue → Option Snapshot → Option Snapshot
unfolding snapshot_of
refresh u marker src old = refresh_from u marker src src.categories old

unfoldable pub get : Option Snapshot → Snapshot
get none = empty_snapshot
get (some s) = s
