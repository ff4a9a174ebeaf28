-- ===== src/Stock/Lots/Deleted.antt =====
-- What deleting lots that hold nothing leaves: the ON DELETE clauses and `DeleteEmptyLots`.
use firebin_api.Base.{
  ℕ, Bool, true, Option, none, some, ◌≡◌, ◌≢◌, refl, ap, ◌∙◌, arith, inl, inr, List, [], ◌∷◌,
  Bool-cases, Option-cases, ◌==◌,
}
use firebin_api.Base.Int.{ℤ, pos, negsuc, is_zero, +ℤ_zero}
use firebin_api.Stock.Model.{StockItem, Db}
use firebin_api.Stock.Table.{find_item, sum_where, delete_item, without_item, forget_source}
use firebin_api.Stock.Lookup.{
  IsUnique, quantity_of, quantity_of-forget_source, quantity_of-without_item,
  find_item-without_item, quantity_of-some, without_item_unused, Fresh-of-none,
}
use firebin_api.Stock.Sums.{sum_where-without_item, sum_where-forget_source}
use firebin_api.Stock.Ledger.{IsSound, delete_item-IsSound}
use firebin_api.Stock.Lots.{is_empty_lot, delete_all}

pub is_zero-eq : (q : ℤ) → is_zero q ≡ true → q ≡ pos 0
is_zero-eq (pos n) h = ground arith
is_zero-eq (negsuc n) h = cc

pub holds_zero : (x : StockItem) → is_empty_lot x ≡ true → x.quantity ≡ pos 0
unfolding is_empty_lot
holds_zero x h = ground (arith, is_zero-eq x.quantity)

-- A row but for the link to the lot that it was split from.
abbrev pub unlinked : StockItem → StockItem
unlinked x = record x { split_from = none }

-- Two lookups give the same row but for that link.
abbrev pub SameRow : Option StockItem → Option StockItem → Type 0
SameRow none none = Unit
SameRow none (some y) = ⊥
SameRow (some x) none = ⊥
SameRow (some x) (some y) = unlinked x ≡ unlinked y

pub find_item-forget_source :
    (k j : ℕ) (xs : List StockItem) → SameRow (find_item j (forget_source k xs)) (find_item j xs)
unfolding find_item forget_source
find_item-forget_source k j [] = tt
find_item-forget_source k j (x ∷ xs) = ground (arith, find_item-forget_source k j xs)

pub SameRow-trans : (a b c : Option StockItem) → SameRow a b → SameRow b c → SameRow a c
SameRow-trans none none none h k = tt
SameRow-trans none (some y) c h k = elim h [ ]
SameRow-trans none none (some z) h k = elim k [ ]
SameRow-trans (some x) none c h k = elim h [ ]
SameRow-trans (some x) (some y) none h k = elim k [ ]
SameRow-trans (some x) (some y) (some z) h k = h ∙ k

pub SameRow-self : (a : Option StockItem) → SameRow a a
SameRow-self none = tt
SameRow-self (some x) = refl

pub sum_where-without_zero :
    (sel : ℕ → Option ℕ → Bool) (k : ℕ) (xs : List StockItem)
    → IsUnique xs
    → quantity_of k xs ≡ pos 0
    → sum_where sel (without_item k xs) ≡ sum_where sel xs
sum_where-without_zero sel k xs u z = elim (Option-cases (find_item k xs)) [
  | inl e ↦ ap (sum_where sel) (without_item_unused k xs (Fresh-of-none k xs e))
  | inr (x, e) ↦ ground (
    arith,
    sum_where-without_item sel k xs x u e,
    quantity_of-some k xs x e,
    +ℤ_zero (sum_where sel (without_item k xs)),
  )
]

-- The tables after the lots of a list are deleted.
pub record Cleaned (db : Db) (ss : List StockItem) (db' : Db) : Type 0 where
  pub sound : IsSound db'
  pub sums : (sel : ℕ → Option ℕ → Bool) → sum_where sel db'.items ≡ sum_where sel db.items
  pub gone : (j : ℕ) → find_item j ss ≢ none → find_item j db'.items ≡ none
  pub others :
      (j : ℕ) → find_item j ss ≡ none → SameRow (find_item j db'.items) (find_item j db.items)

unfoldable pub AllZero : List StockItem → List StockItem → Type 0
AllZero xs [] = Unit
AllZero xs (s ∷ ss) = (quantity_of s.id xs ≡ pos 0) × AllZero xs ss

pub AllZero-delete_item :
    (k : ℕ) (db : Db) (ss : List StockItem)
    → AllZero db.items ss
    → AllZero (delete_item k db).items ss
unfolding AllZero delete_item
AllZero-delete_item k db [] h = tt
AllZero-delete_item k db (s ∷ ss) h = (
  ground (
    arith,
    quantity_of-forget_source k s.id (without_item k db.items),
    quantity_of-without_item k s.id db.items,
    h.0,
  ),
  AllZero-delete_item k db ss h.1,
)

pub SameRow-delete_item :
    (k j : ℕ) (db : Db)
    → j ≢ k
    → SameRow (find_item j (delete_item k db).items) (find_item j db.items)
unfolding delete_item
SameRow-delete_item k j db n =
    let same : find_item j (without_item k db.items) ≡ find_item j db.items =
      ground (arith, find_item-without_item k j db.items) in
    rw (← same) (find_item-forget_source k j (without_item k db.items))

pub gone-delete_item : (k : ℕ) (db : Db) → find_item k (delete_item k db).items ≡ none
unfolding delete_item
gone-delete_item k db = ground (
  arith,
  find_item-without_item k k db.items,
  find_item-forget_source k k (without_item k db.items),
)

-- A lot that is not in the table is not there after more deletions.
pub stays_gone : (a b : Option StockItem) → SameRow a b → b ≡ none → a ≡ none
stays_gone none b h e = refl
stays_gone (some x) none h e = elim h [ ]
stays_gone (some x) (some y) h e = cc

pub sum_kept :
    (sel : ℕ → Option ℕ → Bool) (k : ℕ) (db : Db)
    → IsUnique db.items
    → quantity_of k db.items ≡ pos 0
    → sum_where sel (delete_item k db).items ≡ sum_where sel db.items
unfolding delete_item
sum_kept sel k db u z =
    sum_where-forget_source sel k (without_item k db.items)
    ∙ sum_where-without_zero sel k db.items u z

pub gone_now :
    (x : StockItem) (ss : List StockItem) (db db' : Db)
    → Cleaned (delete_item x.id db) ss db'
    → (j : ℕ) → find_item j (x ∷ ss) ≢ none
    → find_item j db'.items ≡ none
unfolding find_item
gone_now x ss db db' c j h = elim (Option-cases (find_item j ss)) [
  | inr (y, e) ↦ c.gone j (λ n. cc (e, n))
  | inl e ↦ elim (Bool-cases (x.id == j)) [
    | inl hit ↦
        stays_gone (find_item j db'.items) (find_item j (delete_item x.id db).items) (c.others j e)
          (let same : x.id ≡ j = ground arith in rw (← same) (gone-delete_item x.id db))
    | inr miss ↦ absurd (h (ground arith))
  ]
]

pub delete_all-Cleaned :
    (ss : List StockItem) (db : Db)
    → IsSound db
    → AllZero db.items ss
    → Cleaned db ss (delete_all ss db)
unfolding delete_all AllZero find_item
delete_all-Cleaned [] db s z = record {
  sound = s;
  sums = λ sel. refl;
  gone = λ j h. absurd (h refl);
  others = λ j h. SameRow-self (find_item j db.items);
}
delete_all-Cleaned (x ∷ ss) db s z =
    let c =
      delete_all-Cleaned ss (delete_item x.id db) (delete_item-IsSound x.id db s)
        (AllZero-delete_item x.id db ss z.1) in
    record {
      sound = c.sound;
      sums = λ sel. c.sums sel ∙ sum_kept sel x.id db s.unique z.0;
      gone = λ j h. gone_now x ss db (delete_all ss (delete_item x.id db)) c j h;
      others = λ j h.
          SameRow-trans _ (find_item j (delete_item x.id db).items) (find_item j db.items)
            (c.others j (ground arith)) (SameRow-delete_item x.id j db (ground arith));
    }
