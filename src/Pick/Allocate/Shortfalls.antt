-- ===== src/Pick/Allocate/Shortfalls.antt =====
-- Which shortfalls the allocation of internal/picklist/picklist.go reports.
use firebin_api.Base.{
  ℕ, String, List, [], ◌∷◌, ◌++◌, Option, none, some, ◌≡◌, refl, ◌==◌, if◌then◌else◌, arith,
  Bool-cases, inl, inr, sym, ◌∙◌, ap, append_assoc, append-nil,
}
use firebin_api.Base.Int.{ℤ, pos, ◌-ℤ◌, ltb_ℤ}
use firebin_api.Pick.Model.{StockLot, PickShortfall}
use firebin_api.Pick.Demand.{Need, Distinct, Unlisted, named, need_of}
use firebin_api.Pick.Allocate.{
  Picked, pick_part, available, note_shortfall, pick_parts, allocate, pull_of, lots_of,
}

-- The first shortfall of a part.
unfoldable pub find_shortfall : ℕ → List PickShortfall → Option PickShortfall
find_shortfall k [] = none
find_shortfall k (s ∷ ss) = if s.part_id == k then some s else find_shortfall k ss

-- A part of which less is there than is required.
unfoldable pub shortfall : Need → ℤ → PickShortfall
shortfall n avail = record {
  part_id = n.part_id;
  part_name = n.part_name;
  required = n.required;
  available = avail;
  short = n.required -ℤ avail;
}

unfoldable pub shortfall_of : List StockLot → Need → List PickShortfall
shortfall_of lots n =
    if ltb_ℤ (available n.part_id lots) n.required
    then shortfall n (available n.part_id lots) ∷ []
    else []

unfoldable pub shortfalls_of : List StockLot → List Need → List PickShortfall
shortfalls_of lots [] = []
shortfalls_of lots (n ∷ ns) = shortfall_of lots n ++ shortfalls_of lots ns

shortfalls-allocate :
    (k : ℕ) (need : ℤ) (p : Picked) (ls : List StockLot)
    → (allocate k need p ls).shortfalls ≡ p.shortfalls
unfolding allocate
shortfalls-allocate k need p [] = refl
shortfalls-allocate k need p (l ∷ ls) = elim (Bool-cases (ltb_ℤ (pos 0) need)) [
  | inr e ↦ rw (e, allocate) refl
  | inl e ↦ rw (e, allocate) (shortfalls-allocate k (need -ℤ pull_of need l) _ ls)
]

shortfalls-note_shortfall :
    (lots : List StockLot) (n : Need) (p : Picked)
    → (note_shortfall n (available n.part_id lots) p).shortfalls
      ≡ p.shortfalls ++ shortfall_of lots n
unfolding note_shortfall shortfall_of shortfall
shortfalls-note_shortfall lots n p = ground (arith, append-nil p.shortfalls)

shortfalls-pick_part :
    (lots : List StockLot) (p : Picked) (n : Need)
    → (pick_part lots p n).shortfalls ≡ p.shortfalls ++ shortfall_of lots n
unfolding pick_part
shortfalls-pick_part lots p n =
    shortfalls-note_shortfall lots n _
    ∙ ap (λ (ss : List PickShortfall). ss ++ shortfall_of lots n)
        (shortfalls-allocate n.part_id n.required p (lots_of n.part_id lots))

pub shortfalls-pick_parts :
    (lots : List StockLot) (p : Picked) (ns : List Need)
    → (pick_parts lots p ns).shortfalls ≡ p.shortfalls ++ shortfalls_of lots ns
unfolding pick_parts shortfalls_of
shortfalls-pick_parts lots p [] = sym (append-nil p.shortfalls)
shortfalls-pick_parts lots p (n ∷ ns) =
    shortfalls-pick_parts lots (pick_part lots p n) ns
    ∙ ap (λ (ss : List PickShortfall). ss ++ shortfalls_of lots ns) (shortfalls-pick_part lots p n)
    ∙ append_assoc p.shortfalls (shortfall_of lots n) (shortfalls_of lots ns)

-- What is reported of a part with this name, if a line has it, by what is required and available.
unfoldable pub reported : ℕ → Option String → ℤ → ℤ → Option PickShortfall
reported k none need avail = none
reported k (some name) need avail =
    if ltb_ℤ avail need
    then some (record {
      part_id = k;
      part_name = name;
      required = need;
      available = avail;
      short = need -ℤ avail;
    })
    else none

find_shortfall-Unlisted :
    (lots : List StockLot) (k : ℕ) (ns : List Need)
    → Unlisted k ns
    → find_shortfall k (shortfalls_of lots ns) ≡ none
unfolding shortfalls_of find_shortfall shortfall_of shortfall
find_shortfall-Unlisted lots k [] u = refl
find_shortfall-Unlisted lots k (n ∷ ns) u = ground (arith, find_shortfall-Unlisted lots k ns u.1)

pub find_shortfall-shortfalls_of :
    (lots : List StockLot) (k : ℕ) (ns : List Need)
    → Distinct ns
    → find_shortfall k (shortfalls_of lots ns)
      ≡ reported k (named k ns) (need_of k ns) (available k lots)
unfolding shortfalls_of find_shortfall shortfall_of shortfall named need_of reported
find_shortfall-shortfalls_of lots k [] u = refl
find_shortfall-shortfalls_of lots k (n ∷ ns) u = ground (
  arith,
  find_shortfall-shortfalls_of lots k ns u.1,
  find_shortfall-Unlisted lots n.part_id ns u.0,
)
