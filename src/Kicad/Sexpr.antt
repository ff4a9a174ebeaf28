-- ===== src/Kicad/Sexpr.antt =====
-- The reader of KiCad's s-expressions (internal/kicad/sexpr.go). The parser's state, a text and a
-- position, is the text that is left; a call of a parser returns what it read and the rest.
pub mod Clean
pub mod Stuck
pub mod Print
use firebin_api.Base.{
  ℕ, zero, suc, ◌+◌, ◌≡◌, Bool, true, false, ◌||◌, ◌&&◌, not, List, [], ◌∷◌, length, ◌==◌, leb,
  if◌then◌else◌,
}
use firebin_api.Base.Bytes.{Bytes}

-- A node is an atom, with its Value, or a list, with its Children.
mutual
  pub data Node : Type 0 where
    atom : Bytes → Node
    list : Nodes → Node

  pub data Nodes : Type 0 where
    nil : Nodes
    cons : Node → Nodes → Nodes

-- The Value of a node; that of a list is empty.
unfoldable pub value : Node → Bytes
value (atom v) = v
value (list ns) = []

unfoldable pub children : Node → Nodes
children (atom v) = nil
children (list ns) = ns

unfoldable pub head_value : Nodes → Bytes
unfolding value
head_value nil = []
head_value (cons n ns) = value n

unfoldable pub head : Node → Bytes
unfolding children head_value
head n = head_value (children n)

unfoldable pub atom_in : Nodes → ℕ → Bytes
unfolding value
atom_in nil i = []
atom_in (cons n ns) zero = value n
atom_in (cons n ns) (suc i) = atom_in ns i

unfoldable pub atom_at : Node → ℕ → Bytes
unfolding children atom_in
atom_at n i = atom_in (children n) i

-- What a parser returns: a value and the text that is left, or the error at the end of the text.
pub data Reading (A : Type 0) : Type 0 where
  parsed : A → Bytes → Reading A
  unexpected_eof : Reading A
  out_of_fuel : Reading A

infixl 5 ◌>>=◌
abbrev pub ◌>>=◌ : {A B : Type 0} → Reading A → (A → Bytes → Reading B) → Reading B
parsed a s >>= next = next a s
unexpected_eof >>= next = unexpected_eof
out_of_fuel >>= next = out_of_fuel

unfoldable pub is_blank : ℕ → Bool
is_blank c = c == 32 || c == 9 || c == 13 || c == 10

unfoldable pub skip_space : Bytes → Bytes
unfolding is_blank
skip_space [] = []
skip_space (c ∷ s) = if is_blank c then skip_space s else c ∷ s

-- unicode.IsSpace of a rune below 256.
unfoldable pub is_unicode_space : ℕ → Bool
is_unicode_space c = (leb 9 c && leb c 13) || c == 32 || c == 133 || c == 160

unfoldable pub ends_atom : ℕ → Bool
unfolding is_unicode_space
ends_atom c = is_unicode_space c || c == 40 || c == 41

-- A token's bytes, and what follows.
abbrev pub Token : Type 0
Token = Bytes × Bytes

abbrev pub push : ℕ → Token → Token
push c t = (c ∷ t.0, t.1)

unfoldable pub parse_atom : Bytes → Token
unfolding ends_atom
parse_atom [] = ([], [])
parse_atom (c ∷ s) = if ends_atom c then ([], c ∷ s) else push c (parse_atom s)

unfoldable pub escaped : ℕ → ℕ
escaped n = if n == 110 then 10 else if n == 116 then 9 else if n == 114 then 13 else n

-- The text starts after the opening quote.
unfoldable pub parse_quoted : Bytes → Token
unfolding escaped
parse_quoted [] = ([], [])
parse_quoted (c ∷ []) = if c == 34 then ([], []) else (c ∷ [], [])
parse_quoted (c ∷ n ∷ s) =
    if c == 92
    then push (escaped n) (parse_quoted s)
    else if c == 34
    then ([], n ∷ s)
    else push c (parse_quoted (n ∷ s))

-- The cases of the switch of parseList.
pub data Kind : Type 0 where
  closes : Kind
  opens : Kind
  quotes : Kind
  bare : Kind

unfoldable pub kind : ℕ → Kind
kind c = if c == 41 then closes else if c == 40 then opens else if c == 34 then quotes else bare

-- The cases of the switch, where `more` reads the children up to the closing bracket.
unfoldable pub read_as : (Bytes → Reading Nodes) → Kind → ℕ → Bytes → Reading Nodes
unfolding parse_atom parse_quoted
read_as more closes c s = parsed nil s
read_as more opens c s =
    more s >>= λ inner rest. more rest >>= λ ns r. parsed (cons (list inner) ns) r
read_as more quotes c s =
    let t = parse_quoted s in more (t.1) >>= λ ns r. parsed (cons (atom (t.0)) ns) r
read_as more bare c s =
    let t = parse_atom (c ∷ s) in more (t.1) >>= λ ns r. parsed (cons (atom (t.0)) ns) r

-- One round of the loop of parseList, after white space.
unfoldable pub read_next : (Bytes → Reading Nodes) → Bytes → Reading Nodes
unfolding read_as kind
read_next more [] = unexpected_eof
read_next more (c ∷ s) = read_as more (kind c) c s

-- parseList after its opening bracket; each round of its loop costs a unit of fuel.
unfoldable pub parse_children : ℕ → Bytes → Reading Nodes
unfolding read_next skip_space
parse_children zero s = out_of_fuel
parse_children (suc f) s = read_next (parse_children f) (skip_space s)

-- What parseSexpr returns: the root, one of its two errors, or that the fuel ran out.
pub data Document : Type 0 where
  root : Node → Document
  not_sexpr : Document
  eof_in_list : Document
  no_fuel : Document

abbrev pub as_document : Reading Nodes → Document
as_document (parsed ns s) = root (list ns)
as_document unexpected_eof = eof_in_list
as_document out_of_fuel = no_fuel

-- The document of a text that starts with its first bracket.
unfoldable pub parse_from : ℕ → Bytes → Document
unfolding parse_children
parse_from f [] = not_sexpr
parse_from f (c ∷ s) = if c == 40 then as_document (parse_children f s) else not_sexpr

unfoldable pub parse_within : ℕ → Bytes → Document
unfolding parse_from skip_space
parse_within f s = parse_from f (skip_space s)

unfoldable pub parse_sexpr : Bytes → Document
unfolding parse_within
parse_sexpr s = parse_within (suc (length s)) s
