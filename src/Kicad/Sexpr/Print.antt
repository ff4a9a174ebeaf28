-- ===== src/Kicad/Sexpr/Print.antt =====
-- A writer of s-expressions that quotes every atom, and that what it writes reads back.
use firebin_api.Base.{
  ℕ, zero, suc, ◌<◌, ◌≡◌, refl, [], ◌∷◌, ◌++◌, length, ◌==◌, if◌then◌else◌, append_assoc, arith,
  ◌||◌, length-append, ◌∙◌, ap,
}
use firebin_api.Base.Bytes.{Bytes}
use firebin_api.Kicad.Sexpr.{
  Node, Nodes, atom, list, nil, cons, parsed, parse_children, read_next, read_as, skip_space,
  is_blank, parse_quoted, escaped, kind, parse_sexpr, parse_within, parse_from, root, push,
  as_document,
}

-- A byte inside quotes: the quote, the backslash, and the three escapes that KiCad writes.
unfoldable pub escape : ℕ → Bytes
escape c =
    if c == 34 || c == 92
    then 92 ∷ c ∷ []
    else if c == 10
    then 92 ∷ 110 ∷ []
    else if c == 9
    then 92 ∷ 116 ∷ []
    else if c == 13
    then 92 ∷ 114 ∷ []
    else c ∷ []

unfoldable pub escape_all : Bytes → Bytes
unfolding escape
escape_all [] = []
escape_all (c ∷ s) = escape c ++ escape_all s

-- Nodes with a blank after each, so that a list is an open bracket, its nodes and a closing one.
unfoldable mutual
  unfolding escape_all

  pub print : Node → Bytes
  print (atom v) = 34 ∷ escape_all v ++ 34 ∷ []
  print (list ns) = 40 ∷ print_all ns ++ 41 ∷ []

  pub print_all : Nodes → Bytes
  print_all nil = []
  print_all (cons n ns) = print n ++ 32 ∷ print_all ns

-- Only n, t and r are special after a backslash.
escape_reads : (c : ℕ) (s : Bytes) → parse_quoted (escape c ++ s) ≡ push c (parse_quoted s)
unfolding parse_quoted escape escaped
escape_reads c [] = ground arith
escape_reads c (d ∷ s) = ground arith

parse_quoted-escape_all : (v s : Bytes) → parse_quoted (escape_all v ++ 34 ∷ s) ≡ (v, s)
unfolding escape_all parse_quoted
parse_quoted-escape_all [] [] = refl
parse_quoted-escape_all [] (c ∷ s) = refl
parse_quoted-escape_all (c ∷ v) s =
    rw
      (
        append_assoc (escape c) (escape_all v) (34 ∷ s),
        escape_reads c (escape_all v ++ 34 ∷ s),
        parse_quoted-escape_all v s,
      )
      refl

blank_before : (f : ℕ) (s : Bytes) → parse_children f (32 ∷ s) ≡ parse_children f s
unfolding parse_children skip_space is_blank
blank_before zero s = refl
blank_before (suc f) s = refl

atom-append :
    (v more rest : Bytes)
    → ((34 ∷ escape_all v ++ 34 ∷ []) ++ 32 ∷ more) ++ rest
      ≡ 34 ∷ (escape_all v ++ 34 ∷ (32 ∷ (more ++ rest)))
atom-append v more rest = simp (append_assoc)

list-append :
    (inner more rest : Bytes)
    → ((40 ∷ inner ++ 41 ∷ []) ++ 32 ∷ more) ++ rest ≡ 40 ∷ (inner ++ 41 ∷ (32 ∷ (more ++ rest)))
list-append inner more rest = simp (append_assoc)

-- A round that reads a quoted atom, and one that reads a list.
atom_round :
    (f : ℕ) (v s r : Bytes) (ns : Nodes)
    → parse_children f s ≡ parsed ns r
    → parse_children (suc f) (34 ∷ (escape_all v ++ 34 ∷ s)) ≡ parsed (cons (atom v) ns) r
unfolding parse_children read_next read_as kind skip_space is_blank
atom_round f v s r ns h = rw (parse_quoted-escape_all v s, h) refl

list_round :
    (f : ℕ) (ms ns : Nodes) (inner s r : Bytes)
    → parse_children f inner ≡ parsed ms s
    → parse_children f s ≡ parsed ns r
    → parse_children (suc f) (40 ∷ inner) ≡ parsed (cons (list ms) ns) r
unfolding parse_children read_next read_as kind skip_space is_blank
list_round f ms ns inner s r h k = rw (h, k) refl

tail_shorter : (n : Node) (ns : Nodes) → length (print_all ns) < length (print_all (cons n ns))
unfolding print_all
tail_shorter n ns = omega (arith, length-append (print n) (32 ∷ print_all ns))

list_shorter : (ms ns : Nodes) → length (print_all ms) < length (print_all (cons (list ms) ns))
unfolding print print_all
list_shorter ms ns = omega (
  arith,
  length-append (40 ∷ print_all ms ++ 41 ∷ []) (32 ∷ print_all ns),
  length-append (print_all ms) (41 ∷ []),
)

-- With more rounds than the printed nodes have bytes, they read back, whatever follows their list.
pub parse_children-print_all :
    (ns : Nodes) (f : ℕ) (rest : Bytes)
    → length (print_all ns) < f
    → parse_children f (print_all ns ++ 41 ∷ rest) ≡ parsed ns rest
unfolding print print_all parse_children
parse_children-print_all ns zero rest h = absurd (omega (arith, h))
parse_children-print_all nil (suc f) rest h = refl
parse_children-print_all (cons (atom v) ns) (suc f) rest h =
    let tail = parse_children-print_all ns f rest (omega (arith, h, tail_shorter (atom v) ns)) in
    ap (parse_children (suc f)) (atom-append v (print_all ns) (41 ∷ rest))
    ∙ atom_round f v _ rest ns (blank_before f (print_all ns ++ 41 ∷ rest) ∙ tail)
parse_children-print_all (cons (list ms) ns) (suc f) rest h =
    let after = 32 ∷ (print_all ns ++ 41 ∷ rest) in
    let tail = parse_children-print_all ns f rest (omega (arith, h, tail_shorter (list ms) ns)) in
    let inner = parse_children-print_all ms f after (omega (arith, h, list_shorter ms ns)) in
    ap (parse_children (suc f)) (list-append (print_all ms) (print_all ns) (41 ∷ rest))
    ∙ list_round f ms ns _ after rest inner (blank_before f (print_all ns ++ 41 ∷ rest) ∙ tail)

list_length :
    (ns : Nodes) (rest : Bytes) → length (print_all ns) < length ((print_all ns ++ 41 ∷ []) ++ rest)
list_length ns rest =
    omega
      (arith, length-append (print_all ns ++ 41 ∷ []) rest, length-append (print_all ns) (41 ∷ []))

-- What the writer prints for a list reads back as that list, whatever follows it.
pub parse_sexpr-print :
    (ns : Nodes) (rest : Bytes) → parse_sexpr (print (list ns) ++ rest) ≡ root (list ns)
unfolding parse_sexpr parse_within parse_from skip_space is_blank print
parse_sexpr-print ns rest =
    let text = (print_all ns ++ 41 ∷ []) ++ rest in
    let rounds = suc (suc (length text)) in
    let whole = append_assoc (print_all ns) (41 ∷ []) rest in
    ap as_document (
      ap (parse_children rounds) whole
      ∙ parse_children-print_all ns rounds rest (omega (arith, list_length ns rest)))
