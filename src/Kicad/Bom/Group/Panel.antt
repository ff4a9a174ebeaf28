-- ===== src/Kicad/Bom/Group/Panel.antt =====
-- ParsePanelBoardBOM on a panel: the components of one board, whatever the number of its copies.
use firebin_api.Base.{
  ℕ, zero, suc, ◌≡◌, refl, ap, Bool, true, false, ◌||◌, List, [], ◌∷◌, ◌++◌, Bool-cases, inl, inr,
  arith, ok, sym,
}
use firebin_api.Base.Bytes.{Bytes, same, is_empty, same_iff, same_refl}
use firebin_api.Kicad.Bom.Model.{Component}
use firebin_api.Kicad.Bom.Extract.{components_from_pcb}
use firebin_api.Kicad.Bom.Group.{unique_refs, seen_in, group_components, parse_panel_board_bom}

abbrev references : List Component → List Bytes
references [] = []
references (c ∷ cs) = c.reference ∷ references cs

-- The components of a panel with n copies of a board.
abbrev pub copies : ℕ → List Component → List Component
copies zero cs = []
copies (suc n) cs = cs ++ copies n cs

-- Every reference of the board is there, and none twice.
abbrev pub HasDistinctRefs : List Component → Type 0
HasDistinctRefs [] = Unit
HasDistinctRefs (c ∷ cs) =
    (is_empty c.reference ≡ false)
    × (seen_in c.reference (references cs) ≡ false)
    × HasDistinctRefs cs

-- The references of ys, but for the empty one, are among these.
abbrev Within : List Component → (Bytes → Bool) → Type 0
Within ys among =
    (r : Bytes) → is_empty r ≡ false → seen_in r (references ys) ≡ true → among r ≡ true

Within-tail :
    (y : Component) (ys : List Component) (among : Bytes → Bool)
    → Within (y ∷ ys) among
    → Within ys among
Within-tail y ys among h r e q = h r e (grind (arith, q))

unique_refs-Within :
    (seen : List Bytes) (ys : List Component)
    → Within ys (λ r. seen_in r seen)
    → unique_refs seen ys ≡ []
unfolding unique_refs
unique_refs-Within seen [] h = refl
unique_refs-Within seen (y ∷ ys) h =
    let ih = unique_refs-Within seen ys (Within-tail y ys _ h) in
    elim (Bool-cases (is_empty y.reference)) [
      | inl e ↦ rw e ih
      | inr e ↦ rw (e, h y.reference e (rw (same_refl y.reference) refl)) ih
    ]

seen_already :
    (r x : Bytes) (seen : List Bytes)
    → is_empty r ≡ false
    → (is_empty x || seen_in x seen) ≡ true
    → r ≡ x
    → seen_in r seen ≡ true
seen_already r x seen e h p = rw (rw (sym p, e) at h)

or_right : (a : Bool) {b : Bool} → b ≡ true → (a || b) ≡ true
or_right true h = refl
or_right false h = h

-- What is among x's reference, those of xs and the seen ones, where x is skipped or noted.
skipped :
    (x : Component) (xs : List Component) (seen : List Bytes) (r : Bytes)
    → is_empty r ≡ false
    → (is_empty x.reference || seen_in x.reference seen) ≡ true
    → ((same r x.reference || seen_in r (references xs)) || seen_in r seen) ≡ true
    → (seen_in r (references xs) || seen_in r seen) ≡ true
skipped x xs seen r e s h = elim (Bool-cases (same r x.reference)) [
  | inl q ↦
      or_right (seen_in r (references xs))
        (seen_already r (x.reference) seen e s ((same_iff r x.reference).0 q))
  | inr q ↦ rw q at h
]

noted :
    (x : Component) (xs : List Component) (seen : List Bytes) (r : Bytes)
    → ((same r x.reference || seen_in r (references xs)) || seen_in r seen) ≡ true
    → (seen_in r (references xs) || seen_in r (x.reference ∷ seen)) ≡ true
noted x xs seen r h = ground arith

unique_refs-append :
    (seen : List Bytes) (xs ys : List Component)
    → Within ys (λ r. seen_in r (references xs) || seen_in r seen)
    → unique_refs seen (xs ++ ys) ≡ unique_refs seen xs
unfolding unique_refs
unique_refs-append seen [] ys h = unique_refs-Within seen ys h
unique_refs-append seen (x ∷ xs) ys h =
    elim (Bool-cases (is_empty x.reference || seen_in x.reference seen)) [
      | inl e ↦ rw e (unique_refs-append seen xs ys λ r z q. skipped x xs seen r z e (h r z q))
      | inr e ↦ rw e (
          ap (λ t. x ∷ t)
            (unique_refs-append (x.reference ∷ seen) xs ys λ r z q. noted x xs seen r (h r z q)))
    ]

seen_in-append :
    (r : Bytes) (xs ys : List Component)
    → seen_in r (references (xs ++ ys)) ≡ (seen_in r (references xs) || seen_in r (references ys))
seen_in-append r [] ys = refl
seen_in-append r (x ∷ xs) ys = ground (arith, seen_in-append r xs ys)

seen_in-copies :
    (r : Bytes) (n : ℕ) (cs : List Component)
    → seen_in r (references (copies n cs)) ≡ true
    → seen_in r (references cs) ≡ true
seen_in-copies r zero cs h = cc
seen_in-copies r (suc n) cs h =
    grind (arith, seen_in-append r cs (copies n cs), seen_in-copies r n cs)

unique_refs-copies :
    (n : ℕ) (cs : List Component) → unique_refs [] (copies (suc n) cs) ≡ unique_refs [] cs
unique_refs-copies n cs =
    unique_refs-append [] cs (copies n cs) λ r e q. rw (seen_in-copies r n cs q) refl

later_fresh :
    (c : Component) (cs : List Component) (seen : List Bytes) (r : Bytes)
    → seen_in c.reference (references cs) ≡ false
    → seen_in r (references cs) ≡ true
    → ((same r c.reference || seen_in r (references cs)) ≡ true → seen_in r seen ≡ false)
    → seen_in r (c.reference ∷ seen) ≡ false
later_fresh c cs seen r h q fresh =
    grind (arith, same_iff r c.reference, or_right (same r c.reference) q)

-- A board whose references differ, none of them seen, is kept whole.
unique_refs-distinct :
    (seen : List Bytes) (cs : List Component)
    → HasDistinctRefs cs
    → ((r : Bytes) → seen_in r (references cs) ≡ true → seen_in r seen ≡ false)
    → unique_refs seen cs ≡ cs
unfolding unique_refs
unique_refs-distinct seen [] h fresh = refl
unique_refs-distinct seen (c ∷ cs) h fresh =
    rw (h.0, fresh c.reference (rw (same_refl c.reference) refl))
      (ap (λ t. c ∷ t)
        (unique_refs-distinct (c.reference ∷ seen) cs h.2
          λ r q. later_fresh c cs seen r h.1 q (fresh r)))

-- ParsePanelBoardBOM on a file whose components are those of n + 1 copies of a board, on which every
-- component has a reference of its own, returns the bill of materials of one board.
pub parse_panel_board_bom_lem :
    (file : Bytes) (n : ℕ) (board : List Component)
    → HasDistinctRefs board
    → components_from_pcb file ≡ ok (copies (suc n) board)
    → parse_panel_board_bom file ≡ ok (group_components board)
unfolding parse_panel_board_bom
parse_panel_board_bom_lem file n board d h =
    rw (h, unique_refs-copies n board, unique_refs-distinct [] board d (λ r q. refl)) refl
