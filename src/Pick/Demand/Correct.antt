-- ===== src/Pick/Demand/Correct.antt =====
-- What the first loop of `Compute` in internal/picklist/picklist.go collects.
use firebin_api.Pick.Demand.{
  add_line, add_lines, required_of, Demand, need_of, Distinct, add_need-Distinct, pieces, line_need,
  need_of-add_need, add_need, unmatched_line, named, Need,
}
use firebin_api.Base.{
  ℕ, String, List, [], ◌∷◌, ◌++◌, Option, none, some, ◌≡◌, refl, ◌==◌, if◌then◌else◌, arith, sym,
  ap, append_assoc, append-nil, Option-cases, inl, inr, ◌∙◌,
}
use firebin_api.Base.Int.{ℤ, pos, ◌+ℤ◌, +ℤ_zero, +ℤ_assoc}
use firebin_api.Pick.Model.{BomLine, PickUnmatched}

-- The name that the first line of a part gives it.
unfoldable pub name_of : ℕ → List BomLine → Option String
name_of k [] = none
name_of k (l ∷ ls) = elim l.part_id [
  | none ↦ name_of k ls
  | some p ↦ if p == k then some l.part_name else name_of k ls
]

add_line-none :
    (copies qty : ℤ) (d : Demand) (l : BomLine)
    → l.part_id ≡ none
    → add_line copies qty d l
      ≡ record d { unmatched = d.unmatched ++ (unmatched_line copies qty l ∷ []) }
unfolding add_line
add_line-none copies qty d l e = ground arith

add_line-some :
    (copies qty : ℤ) (d : Demand) (l : BomLine) (k : ℕ)
    → l.part_id ≡ some k
    → add_line copies qty d l
      ≡ record d { needs = add_need k l.part_name (pieces (line_need copies qty l)) d.needs }
unfolding add_line
add_line-some copies qty d l k e = ground arith

add_line-Distinct :
    (copies qty : ℤ) (d : Demand) (l : BomLine)
    → Distinct d.needs
    → Distinct (add_line copies qty d l).needs
add_line-Distinct copies qty d l u = elim (Option-cases l.part_id) [
  | inl e ↦ rw (add_line-none copies qty d l e) u
  | inr (k, e) ↦
      rw (add_line-some copies qty d l k e)
        (add_need-Distinct k l.part_name (pieces (line_need copies qty l)) d.needs u)
]

pub add_lines-Distinct :
    (copies qty : ℤ) (d : Demand) (ls : List BomLine)
    → Distinct d.needs
    → Distinct (add_lines copies qty d ls).needs
unfolding add_lines
add_lines-Distinct copies qty d [] u = u
add_lines-Distinct copies qty d (l ∷ ls) u =
    add_lines-Distinct copies qty (add_line copies qty d l) ls (add_line-Distinct copies qty d l u)

-- What one line requires of a part.
required_by : ℤ → ℤ → ℕ → BomLine → ℤ
unfolding required_of
required_by copies qty j l = required_of copies qty j (l ∷ [])

required_by-none :
    (copies qty : ℤ) (j : ℕ) (l : BomLine) → l.part_id ≡ none → required_by copies qty j l ≡ pos 0
unfolding required_by
required_by-none copies qty j l e = ground (arith, +ℤ_zero (pos 0))

required_by-some :
    (copies qty : ℤ) (j : ℕ) (l : BomLine) (k : ℕ)
    → l.part_id ≡ some k
    → required_by copies qty j l ≡ (if k == j then pieces (line_need copies qty l) else pos 0)
unfolding required_by
required_by-some copies qty j l k e =
    ground (arith, +ℤ_zero (pos 0), +ℤ_zero (pieces (line_need copies qty l)))

required_of-cons :
    (copies qty : ℤ) (j : ℕ) (l : BomLine) (ls : List BomLine)
    → required_of copies qty j (l ∷ ls) ≡ required_by copies qty j l +ℤ required_of copies qty j ls
unfolding required_by
required_of-cons copies qty j l ls =
    ap (λ (z : ℤ). z +ℤ required_of copies qty j ls) (sym (+ℤ_zero _))

need_of-add_line :
    (copies qty : ℤ) (j : ℕ) (d : Demand) (l : BomLine)
    → need_of j (add_line copies qty d l).needs ≡ need_of j d.needs +ℤ required_by copies qty j l
need_of-add_line copies qty j d l = elim (Option-cases l.part_id) [
  | inl e ↦
      rw (add_line-none copies qty d l e, required_by-none copies qty j l e)
        (sym (+ℤ_zero (need_of j d.needs)))
  | inr (k, e) ↦
      rw (add_line-some copies qty d l k e, required_by-some copies qty j l k e)
        (need_of-add_need j k l.part_name (pieces (line_need copies qty l)) d.needs)
]

pub need_of-add_lines :
    (copies qty : ℤ) (j : ℕ) (d : Demand) (ls : List BomLine)
    → need_of j (add_lines copies qty d ls).needs ≡ need_of j d.needs +ℤ required_of copies qty j ls
unfolding add_lines
need_of-add_lines copies qty j d [] = unfold required_of in sym (+ℤ_zero (need_of j d.needs))
need_of-add_lines copies qty j d (l ∷ ls) =
    need_of-add_lines copies qty j (add_line copies qty d l) ls
    ∙ ap (λ (z : ℤ). z +ℤ required_of copies qty j ls) (need_of-add_line copies qty j d l)
    ∙ +ℤ_assoc (need_of j d.needs) _ (required_of copies qty j ls)
    ∙ ap (λ (z : ℤ). need_of j d.needs +ℤ z) (sym (required_of-cons copies qty j l ls))

-- The unmatched lines, in their order.
unfoldable pub unmatched_of : ℤ → ℤ → List BomLine → List PickUnmatched
unmatched_of copies qty [] = []
unmatched_of copies qty (l ∷ ls) = elim l.part_id [
  | none ↦ unmatched_line copies qty l ∷ unmatched_of copies qty ls
  | some k ↦ unmatched_of copies qty ls
]

unmatched_of-none :
    (copies qty : ℤ) (l : BomLine) (ls : List BomLine)
    → l.part_id ≡ none
    → unmatched_of copies qty (l ∷ ls) ≡ unmatched_line copies qty l ∷ unmatched_of copies qty ls
unfolding unmatched_of
unmatched_of-none copies qty l ls e = ground arith

unmatched_of-some :
    (copies qty : ℤ) (l : BomLine) (ls : List BomLine) (k : ℕ)
    → l.part_id ≡ some k
    → unmatched_of copies qty (l ∷ ls) ≡ unmatched_of copies qty ls
unfolding unmatched_of
unmatched_of-some copies qty l ls k e = ground arith

pub unmatched-add_lines :
    (copies qty : ℤ) (d : Demand) (ls : List BomLine)
    → (add_lines copies qty d ls).unmatched ≡ d.unmatched ++ unmatched_of copies qty ls
unfolding add_lines
unmatched-add_lines copies qty d [] = unfold unmatched_of in sym (append-nil d.unmatched)
unmatched-add_lines copies qty d (l ∷ ls) = elim (Option-cases l.part_id) [
  | inl e ↦
      unmatched-add_lines copies qty (add_line copies qty d l) ls
      ∙ rw (add_line-none copies qty d l e, unmatched_of-none copies qty l ls e)
          (append_assoc d.unmatched (unmatched_line copies qty l ∷ []) (unmatched_of copies qty ls))
  | inr (k, e) ↦
      unmatched-add_lines copies qty (add_line copies qty d l) ls
      ∙ rw (add_line-some copies qty d l k e, unmatched_of-some copies qty l ls k e) refl
]

abbrev or_else : {A : Type 0} → Option A → Option A → Option A
or_else none b = b
or_else (some a) b = some a

or_else-none : {A : Type 0} (a : Option A) → a ≡ or_else a none
or_else-none none = refl
or_else-none (some a) = refl

named-add_need :
    (j k : ℕ) (name : String) (q : ℤ) (ns : List Need)
    → named j (add_need k name q ns) ≡ or_else (named j ns) (if k == j then some name else none)
unfolding add_need named
named-add_need j k name q [] = refl
named-add_need j k name q (n ∷ ns) =
    ground (arith, named-add_need j k name q ns, or_else-none (named j ns))

name_of-none :
    (j : ℕ) (l : BomLine) (ls : List BomLine) → l.part_id ≡ none → name_of j ls ≡ name_of j (l ∷ ls)
unfolding name_of
name_of-none j l ls e = ground arith

or_else-name_of :
    (j k : ℕ) (l : BomLine) (ls : List BomLine) (a : Option String)
    → l.part_id ≡ some k
    → or_else (or_else a (if k == j then some l.part_name else none)) (name_of j ls)
      ≡ or_else a (name_of j (l ∷ ls))
unfolding name_of
or_else-name_of j k l ls none e = ground arith
or_else-name_of j k l ls (some a) e = ground arith

pub named-add_lines :
    (copies qty : ℤ) (j : ℕ) (d : Demand) (ls : List BomLine)
    → named j (add_lines copies qty d ls).needs ≡ or_else (named j d.needs) (name_of j ls)
unfolding add_lines
named-add_lines copies qty j d [] = unfold name_of in or_else-none (named j d.needs)
named-add_lines copies qty j d (l ∷ ls) = elim (Option-cases l.part_id) [
  | inl e ↦
      named-add_lines copies qty j (add_line copies qty d l) ls
      ∙ rw (add_line-none copies qty d l e) (ap (or_else (named j d.needs)) (name_of-none j l ls e))
  | inr (k, e) ↦
      named-add_lines copies qty j (add_line copies qty d l) ls
      ∙ rw
          (
            add_line-some copies qty d l k e,
            named-add_need j k l.part_name (pieces (line_need copies qty l)) d.needs,
          )
          (or_else-name_of j k l ls (named j d.needs) e)
]
