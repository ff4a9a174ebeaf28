-- ===== src/Tags/Slugs.antt =====
-- What a slug consists of, and that it is its own slug, so that tags compare as the repository compares them.
use firebin_api.Base.{
  ℕ, ◌≡◌, refl, ap, ◌∙◌, sym, arith, ◌&&◌, true_ne_false, if◌then◌else◌, true, false, [], ◌∷◌, All,
  Bool-cases, inl, inr,
}
use firebin_api.Base.Bytes.{Bytes, is_empty}
use firebin_api.Base.Runes.{is_space, trim_space, drop_space, trim_right}
use firebin_api.Tags.{Unicode, slug, only_words, lower_text}

-- What is relied on of the tables: a lower case is its own, no letter or digit is white space, and
-- white space is its own lower case.
pub record Lawful (u : Unicode) : Type 0 where
  pub lower_twice : (r : ℕ) → u.to_lower (u.to_lower r) ≡ u.to_lower r
  pub space_lower : (r : ℕ) → is_space r ≡ true → u.to_lower r ≡ r
  pub no_space : (r : ℕ) → u.is_word r ≡ true → is_space r ≡ false

-- A letter or a digit, in lower case.
abbrev pub IsFolded : Unicode → ℕ → Type 0
IsFolded u r = (u.is_word r ≡ true) × (u.to_lower r ≡ r)

only_words-IsFolded :
    (u : Unicode) → Lawful u → (s : Bytes) → All (IsFolded u) (only_words u (lower_text u s))
unfolding only_words lower_text
only_words-IsFolded u h [] = tt
only_words-IsFolded u h (r ∷ s) = elim (Bool-cases (u.is_word (u.to_lower r))) [
  | inl e ↦ rw e ((e, h.lower_twice r), only_words-IsFolded u h s)
  | inr e ↦ rw e (only_words-IsFolded u h s)
]

only_words-folded :
    (u : Unicode) (s : Bytes) → All (IsFolded u) s → only_words u (lower_text u s) ≡ s
unfolding only_words lower_text
only_words-folded u [] h = refl
only_words-folded u (r ∷ s) h = rw (h.0.1, h.0.0) (ap (λ t. r ∷ t) (only_words-folded u s h.1))

trim_right-folded : (u : Unicode) → Lawful u → (s : Bytes) → All (IsFolded u) s → trim_right s ≡ s
unfolding trim_right
trim_right-folded u l [] h = refl
trim_right-folded u l (r ∷ s) h =
    rw (l.no_space r h.0.0) (ap (λ t. r ∷ t) (trim_right-folded u l s h.1))

trim_space-folded : (u : Unicode) → Lawful u → (s : Bytes) → All (IsFolded u) s → trim_space s ≡ s
unfolding trim_space drop_space
trim_space-folded u l [] h = refl
trim_space-folded u l (r ∷ s) h = rw (l.no_space r h.0.0) (trim_right-folded u l (r ∷ s) h)

-- The letters and digits of a text, in lower case.
abbrev pub folded : Unicode → Bytes → Bytes
folded u [] = []
folded u (r ∷ s) =
    let rest = folded u s in if u.is_word (u.to_lower r) then u.to_lower r ∷ rest else rest

only_words-lower_text : (u : Unicode) (s : Bytes) → only_words u (lower_text u s) ≡ folded u s
unfolding only_words lower_text
only_words-lower_text u [] = refl
only_words-lower_text u (r ∷ s) = ground (arith, only_words-lower_text u s)

space_folded :
    (u : Unicode)
    → Lawful u
    → (r : ℕ) (s : Bytes) → is_space r ≡ true
    → folded u (r ∷ s) ≡ folded u s
space_folded u l r s h = elim (Bool-cases (u.is_word r)) [
  | inl e ↦ absurd (true_ne_false (sym h ∙ l.no_space r e))
  | inr e ↦ rw (l.space_lower r h, e) refl
]

folded-drop_space : (u : Unicode) → Lawful u → (s : Bytes) → folded u (drop_space s) ≡ folded u s
unfolding drop_space
folded-drop_space u l [] = refl
folded-drop_space u l (r ∷ s) = elim (Bool-cases (is_space r)) [
  | inl e ↦ rw e (folded-drop_space u l s ∙ sym (space_folded u l r s e))
  | inr e ↦ rw e refl
]

folded-trimmed :
    (u : Unicode)
    → Lawful u
    → (r : ℕ) (t : Bytes) → is_space r ≡ true
    → folded u (if is_space r && is_empty t then [] else r ∷ t) ≡ folded u t
folded-trimmed u l r [] e = rw e refl
folded-trimmed u l r (c ∷ t) e = rw e (space_folded u l r (c ∷ t) e)

folded-trim_right : (u : Unicode) → Lawful u → (s : Bytes) → folded u (trim_right s) ≡ folded u s
unfolding trim_right
folded-trim_right u l [] = refl
folded-trim_right u l (r ∷ s) = elim (Bool-cases (is_space r)) [
  | inl e ↦
      folded-trimmed u l r (trim_right s) e ∙ folded-trim_right u l s ∙ sym (space_folded u l r s e)
  | inr e ↦ rw (e, folded-trim_right u l s) refl
]

slug-folded : (u : Unicode) → Lawful u → (s : Bytes) → slug u s ≡ folded u s
unfolding slug trim_space
slug-folded u l s =
    only_words-lower_text u (trim_space s)
    ∙ folded-trim_right u l (drop_space s)
    ∙ folded-drop_space u l s

slug_twice : (u : Unicode) → Lawful u → (s : Bytes) → slug u (slug u s) ≡ slug u s
unfolding slug
slug_twice u l s =
    let good = only_words-IsFolded u l (trim_space s) in
    ap (λ t. only_words u (lower_text u t)) (trim_space-folded u l (slug u s) good)
    ∙ only_words-folded u (slug u s) good

-- For lawful tables: the slug of a text has just the letters and digits of it, in their order and in
-- lower case, whatever stands between and around them; all it consists of are letters and digits that
-- are their own lower case; and it is its own slug.
pub slug_lem :
    (u : Unicode)
    → Lawful u
    → (s : Bytes)
    → (slug u s ≡ folded u s) × All (IsFolded u) (slug u s) × (slug u (slug u s) ≡ slug u s)
slug_lem u l s =
    (slug-folded u l s, unfold slug in only_words-IsFolded u l (trim_space s), slug_twice u l s)
