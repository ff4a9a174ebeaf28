-- ===== src/Kicad/Sexpr/Stuck.antt =====
-- The s-expression reader loops for ever at a byte that ends an atom and that it does not skip.
use firebin_api.Base.{ℕ, zero, suc, ◌≡◌, refl, true, [], ◌∷◌, ◌++◌, All, arith, ap, ◌∙◌}
use firebin_api.Base.Bytes.{Bytes}
use firebin_api.Kicad.Sexpr.{
  out_of_fuel, parse_children, read_next, read_as, skip_space, is_blank, parse_atom, ends_atom,
  is_unicode_space, kind, bare, parse_within, parse_from, no_fuel, as_document,
}
use firebin_api.Kicad.Sexpr.Clean.{is_unskipped}

kind_unskipped : (c : ℕ) → is_unskipped c ≡ true → kind c ≡ bare
unfolding is_unskipped kind
kind_unskipped c h = ground arith

skip_space_unskipped : (c : ℕ) (s : Bytes) → is_unskipped c ≡ true → skip_space (c ∷ s) ≡ c ∷ s
unfolding is_unskipped skip_space is_blank
skip_space_unskipped c s h = ground arith

ends_atom_unskipped : (c : ℕ) → is_unskipped c ≡ true → ends_atom c ≡ true
unfolding is_unskipped ends_atom is_unicode_space
ends_atom_unskipped c h = ground arith

pub parse_children_unskipped :
    (f : ℕ) (c : ℕ) (s : Bytes) → is_unskipped c ≡ true → parse_children f (c ∷ s) ≡ out_of_fuel
unfolding parse_children read_next read_as parse_atom
parse_children_unskipped zero c s h = refl
parse_children_unskipped (suc f) c s h =
    rw
      (
        skip_space_unskipped c s h,
        kind_unskipped c h,
        ends_atom_unskipped c h,
        parse_children_unskipped f c s h,
      )
      refl

skip_space-append :
    (w s : Bytes) → All (λ c. is_blank c ≡ true) w → skip_space (w ++ s) ≡ skip_space s
unfolding skip_space
skip_space-append [] s h = refl
skip_space-append (c ∷ w) s h = rw h.0 (skip_space-append w s h.1)

parse_children-append :
    (f : ℕ) (v s : Bytes)
    → All (λ c. is_blank c ≡ true) v
    → parse_children f (v ++ s) ≡ parse_children f s
unfolding parse_children
parse_children-append zero v s h = refl
parse_children-append (suc f) v s h = rw (skip_space-append v s h) refl

-- Where a list starts, after white space, with a byte 11, 12, 133 or 160, no number of rounds is
-- enough: parseSexpr appends empty atoms for ever, at any depth of white space before it.
pub parse_within_diverges :
    (w v : Bytes) (c : ℕ) (s : Bytes) (f : ℕ)
    → All (λ d. is_blank d ≡ true) w
    → All (λ d. is_blank d ≡ true) v
    → is_unskipped c ≡ true
    → parse_within f (w ++ 40 ∷ (v ++ c ∷ s)) ≡ no_fuel
unfolding parse_within parse_from skip_space is_blank
parse_within_diverges w v c s f hw hv h =
    rw (skip_space-append w (40 ∷ (v ++ c ∷ s)) hw)
      (ap as_document (parse_children-append f v (c ∷ s) hv ∙ parse_children_unskipped f c s h))
