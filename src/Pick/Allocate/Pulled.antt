-- ===== src/Pick/Allocate/Pulled.antt =====
-- How much the allocation of internal/picklist/picklist.go pulls of each part.
use firebin_api.Pick.Allocate.{
  lots_of, available, pull_of, note_shortfall, entry_of, allocate, pick_part, Picked, pick_parts,
}
use firebin_api.Base.{
  ℕ, Bool, true, false, List, [], ◌∷◌, ◌++◌, ◌≡◌, refl, ◌==◌, if◌then◌else◌, arith, All, Bool-cases,
  inl, inr, sym, ◌∙◌, ap,
}
use firebin_api.Base.Int.{ℤ, pos, ◌+ℤ◌, ◌-ℤ◌, ltb_ℤ, zero-+ℤ, +ℤ_zero, +ℤ_assoc}
use firebin_api.Pick.Model.{StockLot, PickEntry}
use firebin_api.Pick.Demand.{Need, need_of, Distinct, Unlisted}

abbrev pub AllPositive : List StockLot → Type 0
AllPositive = All (λ l. ltb_ℤ (pos 0) l.quantity ≡ true)

-- The quantity that entries pull of a part.
unfoldable pub pulled : ℕ → List PickEntry → ℤ
pulled k [] = pos 0
pulled k (e ∷ es) = (if e.part_id == k then e.quantity else pos 0) +ℤ pulled k es

-- The quantity that entries pull.
unfoldable pub pulled_in_all : List PickEntry → ℤ
pulled_in_all [] = pos 0
pulled_in_all (e ∷ es) = e.quantity +ℤ pulled_in_all es

-- What can be pulled of a part of which so much is required and so much is there.
unfoldable pub drawn : ℤ → ℤ → ℤ
drawn need avail = if ltb_ℤ (pos 0) need then if ltb_ℤ avail need then avail else need else pos 0

pub pulled-append :
    (k : ℕ) (es fs : List PickEntry) → pulled k (es ++ fs) ≡ pulled k es +ℤ pulled k fs
unfolding pulled
pulled-append k [] fs = sym (zero-+ℤ (pulled k fs))
pulled-append k (e ∷ es) fs =
    ap (λ (z : ℤ). (if e.part_id == k then e.quantity else pos 0) +ℤ z) (pulled-append k es fs)
    ∙ sym (+ℤ_assoc _ (pulled k es) (pulled k fs))

pub pulled_in_all-append :
    (es fs : List PickEntry) → pulled_in_all (es ++ fs) ≡ pulled_in_all es +ℤ pulled_in_all fs
unfolding pulled_in_all
pulled_in_all-append [] fs = sym (zero-+ℤ (pulled_in_all fs))
pulled_in_all-append (e ∷ es) fs =
    ap (λ (z : ℤ). e.quantity +ℤ z) (pulled_in_all-append es fs)
    ∙ sym (+ℤ_assoc e.quantity (pulled_in_all es) (pulled_in_all fs))

-- The sum over lots.
sum_lots : List StockLot → ℤ
sum_lots [] = pos 0
sum_lots (l ∷ ls) = l.quantity +ℤ sum_lots ls

sum_lots-lots_of : (k : ℕ) (ls : List StockLot) → sum_lots (lots_of k ls) ≡ available k ls
unfolding lots_of available sum_lots
sum_lots-lots_of k [] = refl
sum_lots-lots_of k (l ∷ ls) = ground (arith, sum_lots-lots_of k ls, zero-+ℤ (available k ls))

lots_of-AllPositive : (k : ℕ) (ls : List StockLot) → AllPositive ls → AllPositive (lots_of k ls)
unfolding lots_of
lots_of-AllPositive k [] h = tt
lots_of-AllPositive k (l ∷ ls) h = ground (arith, lots_of-AllPositive k ls h.1)

sum_lots_nonneg : (ls : List StockLot) → AllPositive ls → ltb_ℤ (sum_lots ls) (pos 0) ≡ false
unfolding sum_lots ◌+ℤ◌
sum_lots_nonneg [] h = refl
sum_lots_nonneg (l ∷ ls) h = ground (arith, sum_lots_nonneg ls h.1, h.0)

-- Pulling from a first lot, and then from the rest.
drawn_step :
    (need q rest : ℤ)
    → ltb_ℤ (pos 0) need ≡ true
    → ltb_ℤ (pos 0) q ≡ true
    → ltb_ℤ rest (pos 0) ≡ false
    → (if ltb_ℤ q need then q else need) +ℤ drawn (need -ℤ (if ltb_ℤ q need then q else need)) rest
      ≡ drawn need (q +ℤ rest)
unfolding drawn ◌+ℤ◌ ◌-ℤ◌
drawn_step need q rest h h' h'' = ground arith

drawn_zero : (need avail : ℤ) → ltb_ℤ (pos 0) need ≡ false → drawn need avail ≡ pos 0
unfolding drawn
drawn_zero need avail h = ground arith

drawn_none : (need : ℤ) → drawn need (pos 0) ≡ pos 0
unfolding drawn
drawn_none need = ground arith

-- One step of the loop over the lots, in each case of its test.
pub allocate_stop :
    (k : ℕ) (need : ℤ) (p : Picked) (l : StockLot) (ls : List StockLot)
    → ltb_ℤ (pos 0) need ≡ false
    → allocate k need p (l ∷ ls) ≡ p
unfolding allocate
allocate_stop k need p l ls h = ground arith

-- The state after a lot.
unfoldable pub after_lot : ℕ → ℤ → Picked → StockLot → Picked
after_lot k need p l = record p {
  entries = p.entries ++ (entry_of k l (pull_of need l) ∷ []);
  total = p.total +ℤ pull_of need l;
}

pub allocate_pull :
    (k : ℕ) (need : ℤ) (p : Picked) (l : StockLot) (ls : List StockLot)
    → ltb_ℤ (pos 0) need ≡ true
    → allocate k need p (l ∷ ls) ≡ allocate k (need -ℤ pull_of need l) (after_lot k need p l) ls
unfolding allocate after_lot
allocate_pull k need p l ls h = ground arith

pulled-entry_of :
    (j k : ℕ) (l : StockLot) (q : ℤ)
    → pulled j (entry_of k l q ∷ []) ≡ (if k == j then q else pos 0)
unfolding pulled entry_of
pulled-entry_of j k l q = +ℤ_zero (if k == j then q else pos 0)

pulled-after_lot :
    (j k : ℕ) (need : ℤ) (p : Picked) (l : StockLot)
    → pulled j (after_lot k need p l).entries
      ≡ pulled j p.entries +ℤ (if k == j then pull_of need l else pos 0)
unfolding after_lot
pulled-after_lot j k need p l =
    rw
      (
        pulled-append j p.entries (entry_of k l (pull_of need l) ∷ []),
        pulled-entry_of j k l (pull_of need l),
      )
      refl

if_sum :
    (b : Bool) (x y z : ℤ)
    → x +ℤ y ≡ z
    → (if b then x else pos 0) +ℤ (if b then y else pos 0) ≡ (if b then z else pos 0)
if_sum true x y z h = h
if_sum false x y z h = +ℤ_zero (pos 0)

drawn_by_lot :
    (need : ℤ) (l : StockLot) (rest : ℤ)
    → ltb_ℤ (pos 0) need ≡ true
    → ltb_ℤ (pos 0) l.quantity ≡ true
    → ltb_ℤ rest (pos 0) ≡ false
    → pull_of need l +ℤ drawn (need -ℤ pull_of need l) rest ≡ drawn need (l.quantity +ℤ rest)
unfolding pull_of
drawn_by_lot need l rest h h' h'' = drawn_step need l.quantity rest h h' h''

pulled-allocate :
    (j k : ℕ) (need : ℤ) (p : Picked) (ls : List StockLot)
    → AllPositive ls
    → pulled j (allocate k need p ls).entries
      ≡ pulled j p.entries +ℤ (if k == j then drawn need (sum_lots ls) else pos 0)
unfolding sum_lots
pulled-allocate j k need p [] h =
    unfold allocate in rw (drawn_none need) (ground (arith, +ℤ_zero (pulled j p.entries)))
pulled-allocate j k need p (l ∷ ls) h = elim (Bool-cases (ltb_ℤ (pos 0) need)) [
  | inr e ↦
      rw (allocate_stop k need p l ls e, drawn_zero need (l.quantity +ℤ sum_lots ls) e)
        (ground (arith, +ℤ_zero (pulled j p.entries)))
  | inl e ↦ rw (allocate_pull k need p l ls e) (
      pulled-allocate j k (need -ℤ pull_of need l) (after_lot k need p l) ls h.1
      ∙ ap
          (λ (z : ℤ). z +ℤ (if k == j then drawn (need -ℤ pull_of need l) (sum_lots ls) else pos 0))
          (pulled-after_lot j k need p l)
      ∙ +ℤ_assoc (pulled j p.entries) _ _
      ∙ ap (λ (z : ℤ). pulled j p.entries +ℤ z)
          (if_sum (k == j) (pull_of need l) _ _
            (drawn_by_lot need l (sum_lots ls) e h.0 (sum_lots_nonneg ls h.1))))
]

pub note_shortfall_keeps :
    (n : Need) (avail : ℤ) (p : Picked)
    → ((note_shortfall n avail p).entries ≡ p.entries)
      × ((note_shortfall n avail p).total ≡ p.total)
unfolding note_shortfall
note_shortfall_keeps n avail p = ground arith

pub pulled-pick_part :
    (j : ℕ) (lots : List StockLot) (p : Picked) (n : Need)
    → AllPositive lots
    → pulled j (pick_part lots p n).entries
      ≡ pulled j p.entries
        +ℤ (if n.part_id == j then drawn n.required (available n.part_id lots) else pos 0)
unfolding pick_part
pulled-pick_part j lots p n h =
    ap (λ (es : List PickEntry). pulled j es)
      (note_shortfall_keeps n (available n.part_id lots)
        (allocate n.part_id n.required p (lots_of n.part_id lots))).0
    ∙ pulled-allocate j n.part_id n.required p (lots_of n.part_id lots)
        (lots_of-AllPositive n.part_id lots h)
    ∙ ap (λ (z : ℤ). pulled j p.entries +ℤ (if n.part_id == j then drawn n.required z else pos 0))
        (sum_lots-lots_of n.part_id lots)

drawn-Unlisted :
    (j : ℕ) (ns : List Need) (avail : ℤ) → Unlisted j ns → drawn (need_of j ns) avail ≡ pos 0
unfolding need_of drawn
drawn-Unlisted j [] avail u = refl
drawn-Unlisted j (n ∷ ns) avail u = ground (arith, drawn-Unlisted j ns avail u.1)

drawn-need_of :
    (j : ℕ) (lots : List StockLot) (n : Need) (ns : List Need)
    → Unlisted n.part_id ns
    → (if n.part_id == j then drawn n.required (available n.part_id lots) else pos 0)
        +ℤ drawn (need_of j ns) (available j lots)
      ≡ drawn (need_of j (n ∷ ns)) (available j lots)
unfolding need_of
drawn-need_of j lots n ns u = ground (
  arith,
  drawn-Unlisted n.part_id ns (available n.part_id lots) u,
  +ℤ_zero (drawn n.required (available n.part_id lots)),
  zero-+ℤ (drawn (need_of j ns) (available j lots)),
)

-- The entries of a part hold what can be drawn for its need.
pub pulled-pick_parts :
    (j : ℕ) (lots : List StockLot) (p : Picked) (ns : List Need)
    → AllPositive lots
    → Distinct ns
    → pulled j (pick_parts lots p ns).entries
      ≡ pulled j p.entries +ℤ drawn (need_of j ns) (available j lots)
unfolding pick_parts
pulled-pick_parts j lots p [] h u = unfold need_of drawn in sym (+ℤ_zero (pulled j p.entries))
pulled-pick_parts j lots p (n ∷ ns) h u =
    pulled-pick_parts j lots (pick_part lots p n) ns h u.1
    ∙ ap (λ (z : ℤ). z +ℤ drawn (need_of j ns) (available j lots)) (pulled-pick_part j lots p n h)
    ∙ +ℤ_assoc (pulled j p.entries) _ (drawn (need_of j ns) (available j lots))
    ∙ ap (λ (z : ℤ). pulled j p.entries +ℤ z) (drawn-need_of j lots n ns u.0)
