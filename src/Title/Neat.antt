-- ===== src/Title/Neat.antt =====
-- The text that is left when white space is collapsed and the ends are trimmed.
use firebin_api.Base.{
  ℕ, ◌≡◌, append-nil, ◌∙◌, sym, refl, ==_iff, subst, ap, Bool, true, false, not, ◌&&◌, ◌||◌, List,
  [], ◌∷◌, ◌++◌, ◌==◌, All, arith, if◌then◌else◌, Bool-cases, inl, inr,
}
use firebin_api.Base.Bytes.{Bytes, is_empty}
use firebin_api.Base.Runes.{is_space}
use firebin_api.Barcode.Text.{among, trim, trim_left, trim_end}
use firebin_api.HttpLib.Mapping.{tokens, words, join_blank}
use firebin_api.Title.{cutset, collapsed}

-- No white space but single blanks; `held` when no blank may come next.
abbrev pub single : Bool → Bytes → Bool
single held [] = true
single held (c ∷ s) = (if c == 32 then not held else not (is_space c)) && single (c == 32) s

-- The same, and no blank at the end.
abbrev pub neat : Bool → Bytes → Bool
neat held [] = not held
neat held (c ∷ s) = (if c == 32 then not held else not (is_space c)) && neat (c == 32) s

-- A word has no white space.
abbrev plain : Bytes → Bool
plain [] = true
plain (c ∷ s) = not (is_space c) && plain s

blank_is_space : is_space 32 ≡ true
unfolding is_space
blank_is_space = refl

not_blank : (c : ℕ) → is_space c ≡ false → (c == 32) ≡ false
not_blank c h = grind (arith, blank_is_space)

module _ (set : Bytes) (blank : among set 32 ≡ true) where
  kept_blank : (c : ℕ) → among set c ≡ false → (c == 32) ≡ false
  kept_blank c h = grind (arith, blank)

  trim_left-single :
      (held : Bool) (s : Bytes) → single held s ≡ true → single true (trim_left set s) ≡ true
  unfolding trim_left
  trim_left-single held [] h = refl
  trim_left-single held (c ∷ s) h =
      let rest : single (c == 32) s ≡ true = ground arith in
      elim (Bool-cases (among set c)) [
        | inl gone ↦ rw gone (trim_left-single (c == 32) s rest)
        | inr kept ↦ rw kept (ground (arith, kept_blank c kept))
      ]

  trim_end-neat :
      (held : Bool) (s : Bytes)
      → single held s ≡ true
      → (is_empty (trim_end set s) || neat held (trim_end set s)) ≡ true
  unfolding trim_end
  trim_end-neat held [] h = refl
  trim_end-neat held (c ∷ s) h =
      let rest : single (c == 32) s ≡ true = ground arith in
      let tail = trim_end-neat (c == 32) s rest in ground (arith, kept_blank c, tail)

word-single :
    (held : Bool) (c : ℕ) (w r : Bytes)
    → plain (c ∷ w) ≡ true
    → single false r ≡ true
    → single held (c ∷ w ++ r) ≡ true
word-single held c [] r p h = ground (arith, not_blank c)
word-single held c (d ∷ w) r p h =
    let rest : plain (d ∷ w) ≡ true = ground arith in
    let more = word-single false d w r rest h in ground (arith, not_blank c, more)

-- The text after a word.
abbrev tail : List Bytes → Bytes
tail [] = []
tail (v ∷ vs) = 32 ∷ join_blank (v ∷ vs)

join_blank-cons : (w : Bytes) (ws : List Bytes) → join_blank (w ∷ ws) ≡ w ++ tail ws
join_blank-cons w [] = sym (append-nil w)
join_blank-cons w (v ∷ vs) = refl

tokens-neat : (s : Bytes) → neat false s ≡ true → (tokens s).0 ++ tail ((tokens s).1) ≡ s
unfolding tokens
tokens-neat [] h = refl
tokens-neat (c ∷ []) h = elim (Bool-cases (is_space c)) [
  | inl e ↦ ground (arith, not_blank c)
  | inr e ↦ rw e refl
]
tokens-neat (c ∷ d ∷ s) h = elim (Bool-cases (is_space c)) [
  | inl e ↦
      let word : is_space d ≡ false = ground arith in
      let rest : neat false s ≡ true = ground (arith, not_blank d) in
      let blank : (c == 32) ≡ true = ground arith in
      rw (e, word)
        (rw (join_blank-cons (d ∷ (tokens s).0) ((tokens s).1))
          (rw (tokens-neat s rest) (ap (λ x. x ∷ d ∷ s) (sym ((==_iff c 32).0 blank)))))
  | inr e ↦ rw e (ap (λ t. c ∷ t) (tokens-neat (d ∷ s) (ground (arith, not_blank c))))
]

words-neat : (s : Bytes) → neat true s ≡ true → join_blank (words s) ≡ s
unfolding words tokens
words-neat [] h = ground arith
words-neat (c ∷ s) h =
    let word : is_space c ≡ false = ground arith in
    let rest : neat false s ≡ true = ground (arith, not_blank c) in
    rw word
      (join_blank-cons (c ∷ (tokens s).0) ((tokens s).1) ∙ ap (λ t. c ∷ t) (tokens-neat s rest))

same_words : (s : Bytes) → (is_empty s || neat true s) ≡ true → join_blank (words s) ≡ s
unfolding words tokens
same_words [] h = refl
same_words (c ∷ s) h = words-neat (c ∷ s) h

abbrev IsWord : Bytes → Type 0
IsWord w = (is_empty w ≡ false) × (plain w ≡ true)

words_from :
    (w : Bytes) (ws : List Bytes)
    → plain w ≡ true
    → All IsWord ws
    → All IsWord (if is_empty w then ws else w ∷ ws)
words_from [] ws p h = h
words_from (c ∷ w) ws p h = ((refl, p), h)

tokens-IsWord : (s : Bytes) → (plain ((tokens s).0) ≡ true) × All IsWord ((tokens s).1)
unfolding tokens
tokens-IsWord [] = (refl, tt)
tokens-IsWord (c ∷ s) = elim (Bool-cases (is_space c)) [
  | inl e ↦
      rw e
        (refl, words_from ((tokens s).0) ((tokens s).1) ((tokens-IsWord s).0) ((tokens-IsWord s).1))
  | inr e ↦ rw e (ground (arith, (tokens-IsWord s).0), (tokens-IsWord s).1)
]

join_blank-single : (ws : List Bytes) → All IsWord ws → single true (join_blank ws) ≡ true
join_blank-single [] h = refl
join_blank-single ([] ∷ ws) h = ground (arith, h.0.0)
join_blank-single ((c ∷ w) ∷ []) h =
    subst (λ t. single true t ≡ true) (sym (join_blank-cons (c ∷ w) []))
      (word-single true c w [] (h.0.1) refl)
join_blank-single ((c ∷ w) ∷ v ∷ vs) h =
    word-single true c w (32 ∷ join_blank (v ∷ vs)) (h.0.1) (join_blank-single (v ∷ vs) (h.1))

words-IsWord : (s : Bytes) → All IsWord (words s)
unfolding words
words-IsWord s =
    words_from ((tokens s).0) ((tokens s).1) ((tokens-IsWord s).0) ((tokens-IsWord s).1)

module _ (set : Bytes) where
  -- A text that starts with nothing of the set.
  abbrev headed : Bytes → Bool
  headed [] = true
  headed (c ∷ s) = not (among set c)

  trim_left-headed : (s : Bytes) → headed (trim_left set s) ≡ true
  unfolding trim_left
  trim_left-headed [] = refl
  trim_left-headed (c ∷ s) = ground (arith, trim_left-headed s)

  headed-trim_left : (s : Bytes) → headed s ≡ true → trim_left set s ≡ s
  unfolding trim_left
  headed-trim_left [] h = refl
  headed-trim_left (c ∷ s) h = ground arith

  trim_end-headed : (s : Bytes) → headed s ≡ true → headed (trim_end set s) ≡ true
  unfolding trim_end
  trim_end-headed [] h = refl
  trim_end-headed (c ∷ s) h = ground arith

  trim_end-trim_end : (s : Bytes) → trim_end set (trim_end set s) ≡ trim_end set s
  unfolding trim_end
  trim_end-trim_end [] = refl
  trim_end-trim_end (c ∷ s) = elim (Bool-cases (among set c && is_empty (trim_end set s))) [
    | inl gone ↦ rw gone refl
    | inr kept ↦ rw kept (rw (trim_end-trim_end s) (rw kept refl))
  ]

  trim-trim : (s : Bytes) → trim set (trim set s) ≡ trim set s
  unfolding trim
  trim-trim s =
      ap (trim_end set) (
        headed-trim_left (trim_end set (trim_left set s))
          (trim_end-headed (trim_left set s) (trim_left-headed s)))
      ∙ trim_end-trim_end (trim_left set s)

-- What is left has its white space collapsed, and no blank at an end.
pub collapsed-neat : (raw : Bytes) → (is_empty (collapsed raw) || neat true (collapsed raw)) ≡ true
unfolding collapsed trim
collapsed-neat raw = trim_end-neat cutset refl true (trim_left cutset (join_blank (words raw))) (
    trim_left-single cutset refl true (join_blank (words raw))
      (join_blank-single (words raw) (words-IsWord raw)))

pub collapsed-collapsed : (raw : Bytes) → collapsed (collapsed raw) ≡ collapsed raw
unfolding collapsed
collapsed-collapsed raw =
    ap (trim cutset) (same_words (collapsed raw) (collapsed-neat raw))
    ∙ trim-trim cutset (join_blank (words raw))
