-- ===== src/Tags/Suggested.antt =====
-- What is suggested: of every entry that matches, the tags that the part does not have.
use firebin_api.Base.{
  ◌≡◌, refl, sym, Bool, true, false, ◌&&◌, ◌||◌, List, [], ◌∷◌, All, Bool-cases, inl, inr, ◌∙◌, ap,
  true_ne_false,
}
use firebin_api.Base.Bytes.{Bytes, is_empty, same, same_iff}
use firebin_api.Tags.{
  Unicode, Entry, Part, Suggestion, slug, slugs, member, matches, fresh_tags, hay_of, mpns_of,
  suggest_from, suggest,
}

-- The part has no tag with the same slug.
abbrev pub IsFresh : Unicode → Part → Bytes → Type 0
IsFresh u p t = member (slug u t) (slugs u p.existing) ≡ false

abbrev pub fits : Unicode → Part → Entry → Bool
fits u p e = matches u e (hay_of u p) (mpns_of u p.mpns)

-- A suggestion offers something, and only what the part lacks.
pub record IsNew (u : Unicode) (p : Part) (s : Suggestion) : Type 0 where
  pub some_tag : is_empty s.tags ≡ false
  pub fresh : All (IsFresh u p) s.tags

-- A tag is among those of a suggestion.
abbrev pub suggested : Bytes → List Suggestion → Bool
suggested t [] = false
suggested t (s ∷ ss) = member t s.tags || suggested t ss

-- A tag is among those of an entry that fits.
abbrev pub known : Unicode → Part → Bytes → List Entry → Bool
known u p t [] = false
known u p t (e ∷ es) = (fits u p e && member t e.tags) || known u p t es

fresh_tags-IsFresh :
    (u : Unicode) (p : Part) (ts : List Bytes)
    → All (IsFresh u p) (fresh_tags u (slugs u p.existing) ts)
unfolding fresh_tags
fresh_tags-IsFresh u p [] = tt
fresh_tags-IsFresh u p (t ∷ ts) = elim (Bool-cases (member (slug u t) (slugs u p.existing))) [
  | inl e ↦ rw e (fresh_tags-IsFresh u p ts)
  | inr e ↦ rw e (e, fresh_tags-IsFresh u p ts)
]

other_tag :
    (u : Unicode) (p : Part) (t v : Bytes)
    → IsFresh u p t
    → member (slug u v) (slugs u p.existing) ≡ true
    → same t v ≡ false
other_tag u p t v h e = elim (Bool-cases (same t v)) [
  | inl q ↦
      let equal = ap (λ x. member (slug u x) (slugs u p.existing)) ((same_iff t v).0 q) in
      absurd (true_ne_false (sym e ∙ sym equal ∙ h))
  | inr q ↦ q
]

member-fresh_tags :
    (u : Unicode) (p : Part) (t : Bytes) (ts : List Bytes)
    → IsFresh u p t
    → member t (fresh_tags u (slugs u p.existing) ts) ≡ member t ts
unfolding fresh_tags
member-fresh_tags u p t [] h = refl
member-fresh_tags u p t (v ∷ ts) h = elim (Bool-cases (member (slug u v) (slugs u p.existing))) [
  | inl e ↦ rw (e, other_tag u p t v h e) (member-fresh_tags u p t ts h)
  | inr e ↦ rw (e, member-fresh_tags u p t ts h) refl
]

suggest_from-IsNew :
    (u : Unicode) (p : Part) (es : List Entry)
    → All (IsNew u p) (suggest_from u (slugs u p.existing) (hay_of u p) (mpns_of u p.mpns) es)
unfolding suggest_from
suggest_from-IsNew u p [] = tt
suggest_from-IsNew u p (e ∷ es) = elim (Bool-cases (fits u p e)) [
  | inl m ↦ elim (Bool-cases (is_empty (fresh_tags u (slugs u p.existing) e.tags))) [
    | inl q ↦ rw (m, q) (suggest_from-IsNew u p es)
    | inr q ↦
        rw (m, q)
          (
            record { some_tag = q; fresh = fresh_tags-IsFresh u p e.tags },
            suggest_from-IsNew u p es,
          )
  ]
  | inr m ↦ rw m (suggest_from-IsNew u p es)
]

member-empty : (t : Bytes) (ts : List Bytes) → is_empty ts ≡ true → member t ts ≡ false
member-empty t [] h = refl
member-empty t (v ∷ ts) h = cc

suggested-suggest_from :
    (u : Unicode) (p : Part) (t : Bytes) (es : List Entry)
    → IsFresh u p t
    → suggested t (suggest_from u (slugs u p.existing) (hay_of u p) (mpns_of u p.mpns) es)
      ≡ known u p t es
unfolding suggest_from
suggested-suggest_from u p t [] h = refl
suggested-suggest_from u p t (e ∷ es) h = elim (Bool-cases (fits u p e)) [
  | inl m ↦ elim (Bool-cases (is_empty (fresh_tags u (slugs u p.existing) e.tags))) [
    | inl q ↦
        let none_left =
          sym (member-fresh_tags u p t e.tags h)
          ∙ member-empty t (fresh_tags u (slugs u p.existing) e.tags) q in
        rw (m, q, none_left) (suggested-suggest_from u p t es h)
    | inr q ↦ rw (m, q, member-fresh_tags u p t e.tags h, suggested-suggest_from u p t es h) refl
  ]
  | inr m ↦ rw (m, suggested-suggest_from u p t es h) refl
]

-- Every suggestion offers at least one tag, and no tag that the part has in any spelling; and a tag
-- that the part lacks is suggested if and only if an entry that matches the part has it.
pub suggest_lem :
    (u : Unicode) (dictionary : List Entry) (p : Part)
    → All (IsNew u p) (suggest u dictionary p)
      × ((t : Bytes)
          → IsFresh u p t
          → suggested t (suggest u dictionary p) ≡ known u p t dictionary)
unfolding suggest
suggest_lem u dictionary p =
    (suggest_from-IsNew u p dictionary, λ t h. suggested-suggest_from u p t dictionary h)
