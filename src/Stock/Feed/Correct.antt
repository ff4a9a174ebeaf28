-- ===== src/Stock/Feed/Correct.antt =====
-- What `collapseMoves` of internal/repository/stock.go keeps of its input.
use firebin_api.Stock.Feed.{find_seen, move_key, change_at, FeedRow, fold_in, collapse, magnitude}
use firebin_api.Base.{
  ℕ, suc, zero, Bool, true, false, ◌&&◌, List, [], ◌∷◌, ◌++◌, none, some, ◌≡◌, refl, arith, ◌==◌,
  if◌then◌else◌, length, Bool-cases, Option-cases, inl, inr, sym, ◌∙◌, append-nil, append_assoc,
  subst,
}

-- A row that is not a move of a known part.
unfoldable pub is_other : FeedRow → Bool
is_other t = elim (move_key t) [ none ↦ true | some k ↦ false ]

-- The rows that are no moves, in their order.
unfoldable pub others : List FeedRow → List FeedRow
others [] = []
others (t ∷ ts) = if is_other t then t ∷ others ts else others ts

others-append : (ts us : List FeedRow) → others (ts ++ us) ≡ others ts ++ others us
unfolding others
others-append [] us = refl
others-append (t ∷ ts) us = ground (arith, others-append ts us)

-- The i-th row is a move.
abbrev pub IsMoveAt : List FeedRow → ℕ → Type 0
IsMoveAt [] i = ⊥
IsMoveAt (m ∷ ms) zero = is_other m ≡ false
IsMoveAt (m ∷ ms) (suc i) = IsMoveAt ms i

is_other-fold_in : (t m : FeedRow) → is_other (fold_in t m) ≡ is_other m
unfolding is_other move_key fold_in
is_other-fold_in t m = refl

others-change_at :
    (i : ℕ) (t : FeedRow) (ms : List FeedRow)
    → IsMoveAt ms i
    → others (change_at i (fold_in t) ms) ≡ others ms
unfolding others change_at
others-change_at i t [] h = absurd h
others-change_at zero t (m ∷ ms) h = ground (arith, is_other-fold_in t m)
others-change_at (suc i) t (m ∷ ms) h = ground (arith, others-change_at i t ms h)

IsMoveAt-change_at :
    (i j : ℕ) (t : FeedRow) (ms : List FeedRow)
    → IsMoveAt ms j
    → IsMoveAt (change_at i (fold_in t) ms) j
unfolding change_at
IsMoveAt-change_at i j t [] h = h
IsMoveAt-change_at zero zero t (m ∷ ms) h = is_other-fold_in t m ∙ h
IsMoveAt-change_at zero (suc j) t (m ∷ ms) h = h
IsMoveAt-change_at (suc i) zero t (m ∷ ms) h = h
IsMoveAt-change_at (suc i) (suc j) t (m ∷ ms) h = IsMoveAt-change_at i j t ms h

IsMoveAt-append : (j : ℕ) (ms us : List FeedRow) → IsMoveAt ms j → IsMoveAt (ms ++ us) j
IsMoveAt-append j [] us h = absurd h
IsMoveAt-append zero (m ∷ ms) us h = h
IsMoveAt-append (suc j) (m ∷ ms) us h = IsMoveAt-append j ms us h

IsMoveAt-last :
    (ms : List FeedRow) (m : FeedRow) → is_other m ≡ false → IsMoveAt (ms ++ (m ∷ [])) (length ms)
IsMoveAt-last [] m h = h
IsMoveAt-last (x ∷ ms) m h = IsMoveAt-last ms m h

-- Every key seen has the position of a move.
abbrev AllMoves : List (ℕ × ℕ × ℕ) → List FeedRow → Type 0
AllMoves [] out = Unit
AllMoves ((p, c, i) ∷ ss) out = IsMoveAt out i × AllMoves ss out

find_seen-AllMoves :
    (k : ℕ × ℕ) (ss : List (ℕ × ℕ × ℕ)) (out : List FeedRow) (i : ℕ)
    → AllMoves ss out
    → find_seen k ss ≡ some i
    → IsMoveAt out i
unfolding find_seen
find_seen-AllMoves k [] out i h e = absurd (ground arith)
find_seen-AllMoves (p, c) ((q, d, j) ∷ ss) out i h e = elim (Bool-cases (p == q && c == d)) [
  | inl b ↦ subst (IsMoveAt out) (ground arith) h.0
  | inr b ↦ find_seen-AllMoves (p, c) ss out i h.1 (ground arith)
]

AllMoves-change_at :
    (i : ℕ) (t : FeedRow) (ss : List (ℕ × ℕ × ℕ)) (out : List FeedRow)
    → AllMoves ss out
    → AllMoves ss (change_at i (fold_in t) out)
AllMoves-change_at i t [] out h = tt
AllMoves-change_at i t ((p, c, j) ∷ ss) out h =
    (IsMoveAt-change_at i j t out h.0, AllMoves-change_at i t ss out h.1)

AllMoves-append :
    (ss : List (ℕ × ℕ × ℕ)) (out us : List FeedRow) → AllMoves ss out → AllMoves ss (out ++ us)
AllMoves-append [] out us h = tt
AllMoves-append ((p, c, j) ∷ ss) out us h =
    (IsMoveAt-append j out us h.0, AllMoves-append ss out us h.1)

-- One step of the loop, in each case.
pub collapse_other :
    (seen : List (ℕ × ℕ × ℕ)) (out : List FeedRow) (t : FeedRow) (ts : List FeedRow)
    → move_key t ≡ none
    → collapse seen out (t ∷ ts) ≡ collapse seen (out ++ (t ∷ [])) ts
unfolding collapse
collapse_other seen out t ts h = ground arith

pub collapse_again :
    (seen : List (ℕ × ℕ × ℕ)) (out : List FeedRow) (t : FeedRow) (ts : List FeedRow) (p c i : ℕ)
    → move_key t ≡ some (p, c)
    → find_seen (p, c) seen ≡ some i
    → collapse seen out (t ∷ ts) ≡ collapse seen (change_at i (fold_in t) out) ts
unfolding collapse
collapse_again seen out t ts p c i h h' = ground arith

-- A move as it is first put out.
abbrev pub first_row : FeedRow → FeedRow
first_row t = record t { delta = magnitude t.delta }

pub collapse_first :
    (seen : List (ℕ × ℕ × ℕ)) (out : List FeedRow) (t : FeedRow) (ts : List FeedRow) (p c : ℕ)
    → move_key t ≡ some (p, c)
    → find_seen (p, c) seen ≡ none
    → collapse seen out (t ∷ ts)
      ≡ collapse ((p, c, length out) ∷ seen) (out ++ (first_row t ∷ [])) ts
unfolding collapse
collapse_first seen out t ts p c h h' = ground arith

move_is_not_other : (t : FeedRow) (k : ℕ × ℕ) → move_key t ≡ some k → is_other t ≡ false
unfolding is_other
move_is_not_other t k h = ground arith

is_other_of : (t : FeedRow) → move_key t ≡ none → is_other t ≡ true
unfolding is_other
is_other_of t h = ground arith

is_other-first_row : (t : FeedRow) → is_other (first_row t) ≡ is_other t
unfolding is_other move_key
is_other-first_row t = refl

others_move : (t : FeedRow) (ts : List FeedRow) → is_other t ≡ false → others (t ∷ ts) ≡ others ts
unfolding others
others_move t ts h = ground arith

others_kept :
    (t : FeedRow) (ts : List FeedRow) → is_other t ≡ true → others (t ∷ ts) ≡ t ∷ others ts
unfolding others
others_kept t ts h = ground arith

others_none : others [] ≡ []
unfolding others
others_none = refl

pub others-collapse :
    (seen : List (ℕ × ℕ × ℕ)) (out ts : List FeedRow)
    → AllMoves seen out
    → others (collapse seen out ts) ≡ others out ++ others ts
others-collapse seen out [] h = unfold collapse others in sym (append-nil (others out))
others-collapse seen out (t ∷ ts) h = elim (Option-cases (move_key t)) [
  | inl e ↦ rw (collapse_other seen out t ts e) (
      others-collapse seen (out ++ (t ∷ [])) ts (AllMoves-append seen out (t ∷ []) h)
      ∙ rw
          (
            others-append out (t ∷ []),
            others_kept t [] (is_other_of t e),
            others_none,
            others_kept t ts (is_other_of t e),
          )
          (append_assoc (others out) (t ∷ []) (others ts)))
  | inr ((p, c), e) ↦ elim (Option-cases (find_seen (p, c) seen)) [
    | inr (i, f) ↦ rw (collapse_again seen out t ts p c i e f) (
        others-collapse seen (change_at i (fold_in t) out) ts (AllMoves-change_at i t seen out h)
        ∙ rw
            (
              others-change_at i t out (find_seen-AllMoves (p, c) seen out i h f),
              others_move t ts (move_is_not_other t (p, c) e),
            )
            refl)
    | inl f ↦
        let is_move = is_other-first_row t ∙ move_is_not_other t (p, c) e in
        rw (collapse_first seen out t ts p c e f) (
          others-collapse ((p, c, length out) ∷ seen) (out ++ (first_row t ∷ [])) ts
            (IsMoveAt-last out (first_row t) is_move, AllMoves-append seen out (first_row t ∷ []) h)
          ∙ rw
              (
                others-append out (first_row t ∷ []),
                others_move (first_row t) [] is_move,
                others_none,
                append-nil (others out),
                others_move t ts (move_is_not_other t (p, c) e),
              )
              refl)
  ]
]
