-- ===== src/Pick/Walk.antt =====
-- The order of the entries: `sort.SliceStable` in `Compute` of internal/picklist/picklist.go.
use firebin_api.Base.{
  ℕ, String, Bool, true, false, List, [], ◌∷◌, ◌≡◌, refl, str_eq, if◌then◌else◌, arith, All,
  Bool-cases, inl, inr, ◌∙◌, ap, subst, ◌==◌,
}
use firebin_api.Base.Int.{ℤ, pos, ◌+ℤ◌, +ℤ_left_swap}
use firebin_api.Base.Compare.{
  compare_text, is_lt, Follows, and_then, and_then-Follows, compare_text-Follows, compare-Follows,
  compare_text_refl,
}
use firebin_api.Pick.Model.{PickEntry}
use firebin_api.Pick.Allocate.Pulled.{pulled, pulled_in_all}
use Prim.Native.Nat.{Ordering, compare as compare_ℕ}

-- 1 for an entry without a bin.
abbrev unbinned : String → ℕ
unbinned s = if str_eq s "" then 1 else 0

-- Named bins first, then by location name, then by part name.
unfoldable pub walk_order : PickEntry → PickEntry → Ordering
walk_order a b =
    and_then (compare_ℕ (unbinned a.location_name) (unbinned b.location_name)) (
      and_then (compare_text a.location_name b.location_name)
        (compare_text a.part_name b.part_name))

unfoldable pub is_before : PickEntry → PickEntry → Bool
unfolding walk_order
is_before a b = is_lt (walk_order a b)

-- A stable sort: an entry goes before those that it stood before, unless they come first.
unfoldable pub insert_entry : PickEntry → List PickEntry → List PickEntry
unfolding is_before
insert_entry e [] = e ∷ []
insert_entry e (f ∷ fs) =
    let rest = insert_entry e fs in if is_before f e then f ∷ rest else e ∷ f ∷ fs

unfoldable pub sort_entries : List PickEntry → List PickEntry
unfolding insert_entry
sort_entries [] = []
sort_entries (e ∷ es) = insert_entry e (sort_entries es)

walk_order-Follows :
    (a b c : PickEntry) → Follows (walk_order a b) (walk_order b c) (walk_order a c)
unfolding walk_order
walk_order-Follows a b c =
    and_then-Follows _ _ _ _ _ _
      (compare-Follows (unbinned a.location_name) (unbinned b.location_name)
        (unbinned c.location_name))
      (and_then-Follows _ _ _ _ _ _
        (compare_text-Follows a.location_name b.location_name c.location_name)
        (compare_text-Follows a.part_name b.part_name c.part_name))

not_before_trans :
    (p q r : Ordering) → Follows p q r → is_lt p ≡ false → is_lt q ≡ false → is_lt r ≡ false
not_before_trans p q r f h h' = ground arith

-- An entry after which neither of two entries stands out of order: c not before b, b not before a.
pub is_before_trans :
    (a b c : PickEntry) → is_before c b ≡ false → is_before b a ≡ false → is_before c a ≡ false
unfolding is_before
is_before_trans a b c h h' =
    not_before_trans (walk_order c b) (walk_order b a) (walk_order c a) (walk_order-Follows c b a) h
      h'

lt_flip : (p q : Ordering) → Follows p q Ordering.eq → is_lt p ≡ true → is_lt q ≡ false
lt_flip p q f h = ground arith

walk_order_refl : (a : PickEntry) → walk_order a a ≡ Ordering.eq
unfolding walk_order
walk_order_refl a =
    rw (compare_text_refl a.location_name, compare_text_refl a.part_name) (ground arith)

is_before_asym : (a b : PickEntry) → is_before a b ≡ true → is_before b a ≡ false
unfolding is_before
is_before_asym a b h =
    lt_flip (walk_order a b) (walk_order b a)
      (subst (Follows (walk_order a b) (walk_order b a)) (walk_order_refl a)
        (walk_order-Follows a b a))
      h

-- Every entry stands before those that do not come first.
unfoldable pub IsWalk : List PickEntry → Type 0
IsWalk [] = Unit
IsWalk (e ∷ es) = All (λ f. is_before f e ≡ false) es × IsWalk es

insert_entry-All :
    (P : PickEntry → Type 0) (e : PickEntry) (es : List PickEntry)
    → P e
    → All P es
    → All P (insert_entry e es)
unfolding insert_entry
insert_entry-All P e [] h hs = (h, tt)
insert_entry-All P e (f ∷ fs) h hs = elim (Bool-cases (is_before f e)) [
  | inl b ↦ rw (b, insert_entry) (hs.0, insert_entry-All P e fs h hs.1)
  | inr b ↦ rw (b, insert_entry) (h, hs)
]

All-after :
    (e f : PickEntry) (fs : List PickEntry)
    → is_before f e ≡ false
    → All (λ g. is_before g f ≡ false) fs
    → All (λ g. is_before g e ≡ false) fs
All-after e f [] h hs = tt
All-after e f (g ∷ fs) h hs = (is_before_trans e f g hs.0 h, All-after e f fs h hs.1)

insert_entry-IsWalk : (e : PickEntry) (es : List PickEntry) → IsWalk es → IsWalk (insert_entry e es)
unfolding insert_entry IsWalk
insert_entry-IsWalk e [] w = (tt, tt)
insert_entry-IsWalk e (f ∷ fs) w = elim (Bool-cases (is_before f e)) [
  | inl b ↦
      rw (b, insert_entry)
        (
          insert_entry-All (λ g. is_before g f ≡ false) e fs (is_before_asym f e b) w.0,
          insert_entry-IsWalk e fs w.1,
        )
  | inr b ↦ rw (b, insert_entry) ((b, All-after e f fs b w.0), w)
]

pub sort_entries-IsWalk : (es : List PickEntry) → IsWalk (sort_entries es)
unfolding sort_entries
sort_entries-IsWalk [] = unfold IsWalk in tt
sort_entries-IsWalk (e ∷ es) = insert_entry-IsWalk e (sort_entries es) (sort_entries-IsWalk es)

pulled-insert_entry :
    (k : ℕ) (e : PickEntry) (es : List PickEntry) → pulled k (insert_entry e es) ≡ pulled k (e ∷ es)
unfolding insert_entry pulled
pulled-insert_entry k e [] = refl
pulled-insert_entry k e (f ∷ fs) = elim (Bool-cases (is_before f e)) [
  | inl b ↦
      rw (b, insert_entry)
        (ap (λ (z : ℤ). (if f.part_id == k then f.quantity else pos 0) +ℤ z)
            (pulled-insert_entry k e fs)
          ∙ +ℤ_left_swap _ _ (pulled k fs))
  | inr b ↦ rw (b, insert_entry) refl
]

pub pulled-sort_entries : (k : ℕ) (es : List PickEntry) → pulled k (sort_entries es) ≡ pulled k es
unfolding sort_entries pulled
pulled-sort_entries k [] = refl
pulled-sort_entries k (e ∷ es) =
    pulled-insert_entry k e (sort_entries es)
    ∙ ap (λ (z : ℤ). (if e.part_id == k then e.quantity else pos 0) +ℤ z) (pulled-sort_entries k es)

pulled_in_all-insert_entry :
    (e : PickEntry) (es : List PickEntry)
    → pulled_in_all (insert_entry e es) ≡ pulled_in_all (e ∷ es)
unfolding insert_entry pulled_in_all
pulled_in_all-insert_entry e [] = refl
pulled_in_all-insert_entry e (f ∷ fs) = elim (Bool-cases (is_before f e)) [
  | inl b ↦
      rw (b, insert_entry)
        (ap (λ (z : ℤ). f.quantity +ℤ z) (pulled_in_all-insert_entry e fs)
          ∙ +ℤ_left_swap f.quantity e.quantity (pulled_in_all fs))
  | inr b ↦ rw (b, insert_entry) refl
]

pub pulled_in_all-sort_entries :
    (es : List PickEntry) → pulled_in_all (sort_entries es) ≡ pulled_in_all es
unfolding sort_entries pulled_in_all
pulled_in_all-sort_entries [] = refl
pulled_in_all-sort_entries (e ∷ es) =
    pulled_in_all-insert_entry e (sort_entries es)
    ∙ ap (λ (z : ℤ). e.quantity +ℤ z) (pulled_in_all-sort_entries es)
