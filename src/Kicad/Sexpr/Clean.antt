-- ===== src/Kicad/Sexpr/Clean.antt =====
-- The s-expression reader ends on a text without the bytes that end an atom and are not skipped.
use firebin_api.Base.{
  ℕ, zero, suc, ◌≤◌, ◌≡◌, ◌≢◌, refl, Bool, false, ◌||◌, [], ◌∷◌, length, ◌==◌, All, arith,
  Bool-cases, inl, inr,
}
use firebin_api.Base.Bytes.{Bytes}
use firebin_api.Kicad.Sexpr.{
  Reading, parsed, unexpected_eof, out_of_fuel, ◌>>=◌, Nodes, parse_children, read_next, skip_space,
  is_blank, parse_atom, parse_quoted, ends_atom, is_unicode_space, kind, Kind, closes, opens,
  quotes, bare, parse_sexpr, parse_within, parse_from, no_fuel, as_document, read_as, not_sexpr,
}

-- A byte at which an atom ends while no white space is skipped there: a vertical tab, a form feed,
-- and the bytes 0x85 and 0xA0, which stand inside the UTF-8 of other characters.
unfoldable pub is_unskipped : ℕ → Bool
is_unskipped c = c == 11 || c == 12 || c == 133 || c == 160

abbrev pub IsClean : ℕ → Type 0
IsClean c = is_unskipped c ≡ false

-- A rest of at most n clean bytes.
abbrev Fits : ℕ → Bytes → Type 0
Fits n r = (length r ≤ n) × All IsClean r

abbrev Ends : {A : Type 0} → ℕ → Reading A → Type 0
Ends n (parsed a r) = Fits n r
Ends n unexpected_eof = Unit
Ends n out_of_fuel = ⊥

skip_space-Fits : (s : Bytes) → All IsClean s → Fits (length s) (skip_space s)
unfolding skip_space
skip_space-Fits [] h = (omega arith, tt)
skip_space-Fits (c ∷ s) h = ground (arith, skip_space-Fits s)

parse_quoted-Fits : (s : Bytes) → All IsClean s → Fits (length s) ((parse_quoted s).1)
unfolding parse_quoted
parse_quoted-Fits [] h = (omega arith, tt)
parse_quoted-Fits (c ∷ []) h = ground arith
parse_quoted-Fits (c ∷ n ∷ s) h = ground (arith, parse_quoted-Fits s, parse_quoted-Fits (n ∷ s))

parse_atom-Fits : (s : Bytes) → All IsClean s → Fits (length s) ((parse_atom s).1)
unfolding parse_atom
parse_atom-Fits [] h = (omega arith, tt)
parse_atom-Fits (c ∷ s) h = ground (arith, parse_atom-Fits s)

-- A clean byte that starts an atom does not end it.
starts_atom : (c : ℕ) → IsClean c → is_blank c ≡ false → kind c ≡ bare → ends_atom c ≡ false
unfolding is_unskipped is_blank kind ends_atom is_unicode_space
starts_atom c h b k = ground arith

>>=-Ends :
    {A B : Type 0} (n m : ℕ) (p : Reading A) (next : A → Bytes → Reading B)
    → Ends n p
    → ((a : A) (r : Bytes) → Fits n r → Ends m (next a r))
    → Ends m (p >>= next)
>>=-Ends n m (parsed a r) next h k = k a r h
>>=-Ends n m unexpected_eof next h k = tt
>>=-Ends n m out_of_fuel next h k = absurd h

skip_space-head : (s : Bytes) {c : ℕ} {r : Bytes} → skip_space s ≡ c ∷ r → is_blank c ≡ false
unfolding skip_space
skip_space-head [] h = cc
skip_space-head (d ∷ s) h = elim (Bool-cases (is_blank d)) [
  | inl e ↦ skip_space-head s (rw e at h)
  | inr e ↦ grind (arith, e)
]

read_as-Ends :
    (n : ℕ) (more : Bytes → Reading Nodes) (k : Kind) (c : ℕ) (s : Bytes)
    → ((r : Bytes) → Fits n r → Ends n (more r))
    → Fits (suc n) (c ∷ s)
    → (k ≡ bare → ends_atom c ≡ false)
    → Ends n (read_as more k c s)
unfolding read_as
read_as-Ends n more closes c s ih h e = (omega (arith, h.0), h.1.1)
read_as-Ends n more opens c s ih h e =
    >>=-Ends n n (more s) _ (ih s (omega (arith, h.0), h.1.1))
      λ inner r f. >>=-Ends n n (more r) _ (ih r f) λ ns r' f'. f'
read_as-Ends n more quotes c s ih h e =
    let fit = parse_quoted-Fits s h.1.1 in
    >>=-Ends n n _ _ (ih _ (omega (arith, h.0, fit.0), fit.1)) λ ns r f. f
read_as-Ends n more bare c s ih h e =
    let fit = parse_atom-Fits s h.1.1 in
    rw (e refl) (>>=-Ends n n _ _ (ih _ (omega (arith, h.0, fit.0), fit.1)) λ ns r f. f)

read_next-Ends :
    (n : ℕ) (more : Bytes → Reading Nodes) (s : Bytes)
    → ((r : Bytes) → Fits n r → Ends n (more r))
    → Fits (suc n) (skip_space s)
    → Ends n (read_next more (skip_space s))
unfolding read_next
read_next-Ends n more s ih h =
    elim (skip_space s) as (λ t. skip_space s ≡ t → Fits (suc n) t → Ends n (read_next more t)) [
      | [] ↦ λ e g. tt
      | c ∷ r ↦
          λ e g. read_as-Ends n more (kind c) c r ih g (starts_atom c g.1.0 (skip_space-head s e))
    ]
      refl h

widen-Ends : {A : Type 0} (n : ℕ) (p : Reading A) → Ends n p → Ends (suc n) p
widen-Ends n (parsed a r) h = (omega (arith, h.0), h.1)
widen-Ends n unexpected_eof h = tt
widen-Ends n out_of_fuel h = h

pub parse_children-Ends : (f : ℕ) (s : Bytes) → Fits f s → Ends f (parse_children (suc f) s)
unfolding parse_children
parse_children-Ends zero [] h = tt
parse_children-Ends zero (c ∷ s) h = absurd (omega (arith, h.0))
parse_children-Ends (suc f) s h =
    let fit = skip_space-Fits s h.1 in
    widen-Ends f (read_next (parse_children (suc f)) (skip_space s)) (
      read_next-Ends f (parse_children (suc f)) s (parse_children-Ends f)
        (omega (arith, fit.0, h.0), fit.1))

as_document-Ends : (n : ℕ) (p : Reading Nodes) → Ends n p → as_document p ≢ no_fuel
as_document-Ends n (parsed ns r) h e = cc
as_document-Ends n unexpected_eof h e = cc
as_document-Ends n out_of_fuel h e = h

absurd_not_sexpr : not_sexpr ≢ no_fuel
absurd_not_sexpr e = cc

parse_from_ends : (s : Bytes) (n : ℕ) → Fits n s → parse_from (suc n) s ≢ no_fuel
unfolding parse_from
parse_from_ends [] n h = absurd_not_sexpr
parse_from_ends (c ∷ s) n h = elim (Bool-cases (c == 40)) [
  | inl e ↦ rw e (
      as_document-Ends n (parse_children (suc n) s)
        (parse_children-Ends n s (omega (arith, h.0), h.1.1)))
  | inr e ↦ rw e absurd_not_sexpr
]

-- On a text without the bytes 11, 12, 133 and 160, parseSexpr ends: a loop of at most one round
-- more than the text has bytes returns a tree or one of the two errors.
pub parse_sexpr_ends : (s : Bytes) → All IsClean s → parse_sexpr s ≢ no_fuel
unfolding parse_sexpr parse_within
parse_sexpr_ends s h = parse_from_ends (skip_space s) (length s) (skip_space-Fits s h)
