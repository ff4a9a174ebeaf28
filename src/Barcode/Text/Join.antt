-- ===== src/Barcode/Text/Join.antt =====
-- Texts put together from pieces, and what splitting and trimming make of them.
use firebin_api.Base.{
  ℕ, ◌≡◌, refl, ap, ◌∙◌, Bool, true, false, not, List, [], ◌∷◌, ◌++◌, ◌==◌, All, arith, All-append,
}
use firebin_api.Base.Bytes.{Bytes}
use firebin_api.Barcode.Text.{among, pieces, split, before_first, trim_end, trim_left}

abbrev pub Lacks : ℕ → Bytes → Type 0
Lacks c s = All (λ d. (d == c) ≡ false) s

abbrev pub join_to : ℕ → Bytes → List Bytes → Bytes
join_to c t [] = t
join_to c t (u ∷ us) = t ++ c ∷ join_to c u us

abbrev pub join : ℕ → List Bytes → Bytes
join c [] = []
join c (t ∷ ts) = join_to c t ts

pieces-Lacks : (c : ℕ) (t : Bytes) → Lacks c t → pieces c t ≡ (t, [])
unfolding pieces
pieces-Lacks c [] h = refl
pieces-Lacks c (d ∷ t) h = rw (h.0, pieces-Lacks c t h.1) refl

eq_self : (c : ℕ) → (c == c) ≡ true
eq_self c = ground arith

pieces-append :
    (c : ℕ) (t s : Bytes) → Lacks c t → pieces c (t ++ c ∷ s) ≡ (t, (pieces c s).0 ∷ (pieces c s).1)
unfolding pieces
pieces-append c [] s h = rw (eq_self c) refl
pieces-append c (d ∷ t) s h = rw (h.0, pieces-append c t s h.1) refl

pub pieces-join_to :
    (c : ℕ) (t : Bytes) (ts : List Bytes)
    → Lacks c t
    → All (Lacks c) ts
    → pieces c (join_to c t ts) ≡ (t, ts)
pieces-join_to c t [] h hs = pieces-Lacks c t h
pieces-join_to c t (u ∷ us) h hs =
    pieces-append c t (join_to c u us) h
    ∙ ap (λ p. (t, p.0 ∷ p.1)) (pieces-join_to c u us hs.0 hs.1)

-- Splitting at a code point that no piece contains gives the pieces back.
pub split-join_to :
    (c : ℕ) (t : Bytes) (ts : List Bytes)
    → Lacks c t
    → All (Lacks c) ts
    → split c (join_to c t ts) ≡ t ∷ ts
unfolding split
split-join_to c t ts h hs = ap (λ p. p.0 ∷ p.1) (pieces-join_to c t ts h hs)

pub before_first-append : (c : ℕ) (s r : Bytes) → Lacks c s → before_first c (s ++ c ∷ r) ≡ s
unfolding before_first
before_first-append c [] r h = rw (eq_self c) refl
before_first-append c (d ∷ s) r h = rw (h.0, before_first-append c s r h.1) refl

pub Lacks-join_to :
    (c k : ℕ) (t : Bytes) (ts : List Bytes)
    → (k == c) ≡ false
    → Lacks c t
    → All (Lacks c) ts
    → Lacks c (join_to k t ts)
Lacks-join_to c k t [] e h hs = h
Lacks-join_to c k t (u ∷ us) e h hs =
    All-append (λ d. (d == c) ≡ false) t (k ∷ join_to k u us) h
      (e, Lacks-join_to c k u us e hs.0 hs.1)

-- The last code point is there and not in a set.
abbrev pub ends_outside : Bytes → Bytes → Bool
ends_outside set [] = false
ends_outside set (c ∷ []) = not (among set c)
ends_outside set (c ∷ d ∷ s) = ends_outside set (d ∷ s)

abbrev pub starts_outside : Bytes → Bytes → Bool
starts_outside set [] = false
starts_outside set (c ∷ s) = not (among set c)

ends_outside-append :
    (set s : Bytes) (c : ℕ) (t : Bytes)
    → ends_outside set t ≡ true
    → ends_outside set (s ++ c ∷ t) ≡ true
ends_outside-append set [] c [] h = cc
ends_outside-append set [] c (d ∷ t) h = h
ends_outside-append set (b ∷ []) c t h = ends_outside-append set [] c t h
ends_outside-append set (b ∷ d ∷ s) c t h = ends_outside-append set (d ∷ s) c t h

pub ends_outside-join_to :
    (set : Bytes) (c : ℕ) (t : Bytes) (ts : List Bytes)
    → ends_outside set t ≡ true
    → All (λ u. ends_outside set u ≡ true) ts
    → ends_outside set (join_to c t ts) ≡ true
ends_outside-join_to set c t [] h hs = h
ends_outside-join_to set c t (u ∷ us) h hs =
    ends_outside-append set t c (join_to c u us) (ends_outside-join_to set c u us hs.0 hs.1)

trim_end-all : (set pad : Bytes) → All (λ c. among set c ≡ true) pad → trim_end set pad ≡ []
unfolding trim_end
trim_end-all set [] h = refl
trim_end-all set (c ∷ pad) h = rw (h.0, trim_end-all set pad h.1) refl

trim_end_kept :
    (set : Bytes) (c d : ℕ) (s u : Bytes)
    → trim_end set u ≡ d ∷ s
    → trim_end set (c ∷ u) ≡ c ∷ d ∷ s
unfolding trim_end
trim_end_kept set c d s u e = rw e (ground arith)

-- Padding after a text that ends outside the set goes, and nothing else.
pub trim_end-pad :
    (set s pad : Bytes)
    → ends_outside set s ≡ true
    → All (λ c. among set c ≡ true) pad
    → trim_end set (s ++ pad) ≡ s
unfolding trim_end
trim_end-pad set [] pad h k = cc
trim_end-pad set (c ∷ []) pad h k = rw (trim_end-all set pad k) (ground (arith, h))
trim_end-pad set (c ∷ d ∷ s) pad h k =
    trim_end_kept set c d s ((d ∷ s) ++ pad) (trim_end-pad set (d ∷ s) pad h k)

pub trim_left-outside : (set s : Bytes) → starts_outside set s ≡ true → trim_left set s ≡ s
unfolding trim_left
trim_left-outside set [] h = cc
trim_left-outside set (c ∷ s) h = ground (arith, h)

pub starts_outside-join_to :
    (set : Bytes) (c : ℕ) (t : Bytes) (ts : List Bytes)
    → starts_outside set t ≡ true
    → starts_outside set (join_to c t ts) ≡ true
starts_outside-join_to set c t [] h = h
starts_outside-join_to set c [] (u ∷ us) h = cc
starts_outside-join_to set c (d ∷ t) (u ∷ us) h = h
