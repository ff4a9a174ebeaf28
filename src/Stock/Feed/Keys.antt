-- ===== src/Stock/Feed/Keys.antt =====
-- That `collapseMoves` of internal/repository/stock.go puts out one row for each move.
use firebin_api.Stock.Feed.{
  FeedRow, collapse_moves, move_key, find_seen, change_at, collapse, fold_in,
}
use firebin_api.Base.{
  ℕ, suc, zero, ◌≤◌, List, [], ◌∷◌, ◌++◌, none, some, ◌≡◌, ◌≢◌, refl, arith, length, take, All,
  Option-cases, inl, inr, ap, sym, ◌∙◌, length-take, All-append, append-nil,
}
use firebin_api.Stock.Feed.Correct.{
  others, others-collapse, collapse_other, collapse_again, collapse_first, first_row,
}

-- The keys of the moves among rows.
unfoldable pub keys : List FeedRow → List (ℕ × ℕ)
keys [] = []
keys (t ∷ ts) = elim (move_key t) [ none ↦ keys ts | some k ↦ k ∷ keys ts ]

abbrev pub Distinct : List (ℕ × ℕ) → Type 0
Distinct [] = Unit
Distinct (k ∷ ks) = All (λ j. j ≢ k) ks × Distinct ks

keys_other : (t : FeedRow) (ts : List FeedRow) → move_key t ≡ none → keys (t ∷ ts) ≡ keys ts
unfolding keys
keys_other t ts h = ground arith

keys_move :
    (t : FeedRow) (ts : List FeedRow) (k : ℕ × ℕ)
    → move_key t ≡ some k
    → keys (t ∷ ts) ≡ k ∷ keys ts
unfolding keys
keys_move t ts k h = ground arith

keys-append : (ts us : List FeedRow) → keys (ts ++ us) ≡ keys ts ++ keys us
keys-append [] us = unfold keys in refl
keys-append (t ∷ ts) us = elim (Option-cases (move_key t)) [
  | inl e ↦ rw (keys_other t (ts ++ us) e, keys_other t ts e) (keys-append ts us)
  | inr (k, e) ↦
      rw (keys_move t (ts ++ us) k e, keys_move t ts k e)
        (ap (λ (ks : List (ℕ × ℕ)). k ∷ ks) (keys-append ts us))
]

keys-fold_in : (t m : FeedRow) (ms : List FeedRow) → keys (fold_in t m ∷ ms) ≡ keys (m ∷ ms)
unfolding keys move_key fold_in
keys-fold_in t m ms = refl

keys-change_at :
    (i : ℕ) (t : FeedRow) (ms : List FeedRow) → keys (change_at i (fold_in t) ms) ≡ keys ms
unfolding keys change_at
keys-change_at i t [] = refl
keys-change_at zero t (m ∷ ms) = keys-fold_in t m ms
keys-change_at (suc i) t (m ∷ ms) = elim (Option-cases (move_key m)) [
  | inl e ↦
      rw (keys_other m (change_at i (fold_in t) ms) e, keys_other m ms e) (keys-change_at i t ms)
  | inr (k, e) ↦
      rw (keys_move m (change_at i (fold_in t) ms) k e, keys_move m ms k e)
        (ap (λ (ks : List (ℕ × ℕ)). k ∷ ks) (keys-change_at i t ms))
]

-- All keys have been seen.
abbrev AllSeen : List (ℕ × ℕ × ℕ) → List (ℕ × ℕ) → Type 0
AllSeen seen = All (λ j. find_seen j seen ≢ none)

seen-cons :
    (p c i : ℕ) (j : ℕ × ℕ) (seen : List (ℕ × ℕ × ℕ))
    → find_seen j seen ≢ none
    → find_seen j ((p, c, i) ∷ seen) ≢ none
unfolding find_seen
seen-cons p c i (q, d) seen h = ground arith

seen_now : (p c i : ℕ) (seen : List (ℕ × ℕ × ℕ)) → find_seen (p, c) ((p, c, i) ∷ seen) ≢ none
unfolding find_seen
seen_now p c i seen = ground arith

cons-AllSeen :
    (p c i : ℕ) (seen : List (ℕ × ℕ × ℕ)) (ks : List (ℕ × ℕ))
    → AllSeen seen ks
    → AllSeen ((p, c, i) ∷ seen) ks
cons-AllSeen p c i seen [] h = tt
cons-AllSeen p c i seen (k ∷ ks) h = (seen-cons p c i k seen h.0, cons-AllSeen p c i seen ks h.1)

unseen_ne :
    (k : ℕ × ℕ) (seen : List (ℕ × ℕ × ℕ)) (ks : List (ℕ × ℕ))
    → find_seen k seen ≡ none
    → AllSeen seen ks
    → All (λ j. j ≢ k) ks
unseen_ne k seen [] e h = tt
unseen_ne k seen (j ∷ ks) e h =
    (λ q. h.0 (ap (λ (x : ℕ × ℕ). find_seen x seen) q ∙ e), unseen_ne k seen ks e h.1)

append-Distinct :
    (k : ℕ × ℕ) (ks : List (ℕ × ℕ)) → All (λ j. j ≢ k) ks → Distinct ks → Distinct (ks ++ (k ∷ []))
append-Distinct k [] n d = (tt, tt)
append-Distinct k (j ∷ ks) n d =
    (All-append (λ i. i ≢ j) ks (k ∷ []) d.0 ((λ q. n.0 (sym q)), tt), append-Distinct k ks n.1 d.1)

move_key-first_row : (t : FeedRow) → move_key (first_row t) ≡ move_key t
unfolding move_key
move_key-first_row t = refl

keys_nil : keys [] ≡ []
unfolding keys
keys_nil = refl

collapse-Distinct :
    (seen : List (ℕ × ℕ × ℕ)) (out ts : List FeedRow)
    → AllSeen seen (keys out)
    → Distinct (keys out)
    → Distinct (keys (collapse seen out ts))
collapse-Distinct seen out [] h d = unfold collapse in d
collapse-Distinct seen out (t ∷ ts) h d = elim (Option-cases (move_key t)) [
  | inl e ↦
      let same =
        keys-append out (t ∷ [])
        ∙ ap (λ (ks : List (ℕ × ℕ)). keys out ++ ks) (keys_other t [] e ∙ keys_nil)
        ∙ append-nil (keys out) in
      rw (collapse_other seen out t ts e)
        (collapse-Distinct seen (out ++ (t ∷ [])) ts (rw same h) (rw same d))
  | inr ((p, c), e) ↦ elim (Option-cases (find_seen (p, c) seen)) [
    | inr (i, f) ↦ rw (collapse_again seen out t ts p c i e f) (
        collapse-Distinct seen (change_at i (fold_in t) out) ts (rw (keys-change_at i t out) h)
          (rw (keys-change_at i t out) d))
    | inl f ↦
        let same =
          keys-append out (first_row t ∷ [])
          ∙ ap (λ (ks : List (ℕ × ℕ)). keys out ++ ks)
              (keys_move (first_row t) [] (p, c) (move_key-first_row t ∙ e)
                ∙ ap (λ (ks : List (ℕ × ℕ)). (p, c) ∷ ks) keys_nil) in
        rw (collapse_first seen out t ts p c e f) (
          collapse-Distinct ((p, c, length out) ∷ seen) (out ++ (first_row t ∷ [])) ts
            (rw same (
              All-append (λ j. find_seen j ((p, c, length out) ∷ seen) ≢ none) (keys out)
                ((p, c) ∷ []) (cons-AllSeen p c (length out) seen (keys out) h)
                (seen_now p c (length out) seen, tt)))
            (rw same (append-Distinct (p, c) (keys out) (unseen_ne (p, c) seen (keys out) f h) d)))
  ]
]

-- The feed has at most as many rows as were asked for, the first of a list in which the rows that
-- are no moves of a known part are those of the input, in their order, and no two rows are moves of
-- the same part at the same time.
pub collapse_moves_lem :
    (raw : List FeedRow) (limit : ℕ)
    → (length (collapse_moves raw limit) ≤ limit)
      × ((full : List FeedRow) × (collapse_moves raw limit ≡ take limit full)
          × (others full ≡ others raw)
          × Distinct (keys full))
unfolding collapse_moves
collapse_moves_lem raw limit = (
  omega (arith, length-take limit (collapse [] [] raw)),
  (
    collapse [] [] raw,
    refl,
    others-collapse [] [] raw tt ∙ unfold others in refl,
    collapse-Distinct [] [] raw (unfold keys in tt) (unfold keys in tt),
  ),
)
