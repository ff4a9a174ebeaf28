-- ===== src/Stock/Transfer/Gather.antt =====
-- `MovePartToLocation` leaves a part's stock in one place.
use firebin_api.Base.{
  ℕ, Bool, true, false, Option, none, some, ◌≡◌, refl, sym, ap, ◌∙◌, arith, inl, inr, List, [], ◌∷◌,
  Bool-cases, Option-cases, ◌==◌, if◌then◌else◌, Outcome-cases, ok, ◌⊎◌,
}
use firebin_api.Base.Int.{ℤ, pos, ◌+ℤ◌, int_laws, parts_of_eq, zero-+ℤ}
use firebin_api.Stock.Model.{StockItem, Transaction, Db, Env}
use firebin_api.Stock.Table.{find_item, sum_where, same_location}
use firebin_api.Stock.Tx.{record_change, find_or_create}
use firebin_api.Stock.Lookup.{IsUnique}
use firebin_api.Stock.Sums.{weight}
use firebin_api.Stock.Ledger.{IsSound}
use firebin_api.Stock.Steps.{IsAtHand, find_or_create-IsAtHand, Changed, record_change-Changed}
use firebin_api.Stock.Transfer.{bulk_row, empty_sources, gather, sources, is_source}
use firebin_api.Stock.Transfer.Sources.{IsUnique-sources, find_item-sources, sources_none}
use firebin_api.Stock.Transfer.Emptied.{Emptied, Stand, empty_sources-Emptied}

same_location_self : (a : Option ℕ) → same_location a a ≡ true
unfolding same_location
same_location_self none = refl
same_location_self (some a) = ground arith

at_destination :
    (part : ℕ) (to : Option ℕ) (x : StockItem) → x.location_id ≡ to → is_source part to x ≡ false
unfolding is_source
at_destination part to x e = ground (arith, same_location_self to)

holds_nothing :
    (part : ℕ) (to : Option ℕ) (x : StockItem)
    → is_source part to (record x { quantity = pos 0 }) ≡ false
unfolding is_source
holds_nothing part to x = ground arith

-- A lot found or made at the destination leaves the sources as they were.
sources-IsAtHand :
    (db db₁ : Db) (part : ℕ) (to : Option ℕ) (d : StockItem)
    → IsAtHand db part to d db₁
    → sources part to db₁.items ≡ sources part to db.items
unfolding sources
sources-IsAtHand db db₁ part to d a = go a.rows
  where
    go :
        (db₁.items ≡ db.items) ⊎ (db₁.items ≡ d ∷ db.items)
        → sources part to db₁.items ≡ sources part to db.items
    go (inl e) = ap (sources part to) e
    go (inr e) = rw (e, sources) (rw (at_destination part to d a.at_location))

-- The result of the last step: `q` is what the destination holds then.
pub record Gathered (db : Db) (part : ℕ) (to : Option ℕ) (moved : ℤ) (db' : Db) : Type 0 where
  pub sound : IsSound db'
  pub total : moved ≡ sum_where (λ p l. true) (sources part to db.items)
  pub sums :
      (sel : ℕ → Option ℕ → Bool)
      → sum_where sel db'.items +ℤ sum_where sel (sources part to db.items)
        ≡ sum_where sel db.items +ℤ weight sel part to moved
  pub nothing_left : sources part to db'.items ≡ []

pour :
    (b : Bool) (s₀ s₁ s₂ s₃ src d q : ℤ)
    → s₁ ≡ s₀
    → s₂ +ℤ src ≡ s₁
    → s₃ +ℤ (if b then d else pos 0) ≡ s₂ +ℤ (if b then d +ℤ q else pos 0)
    → s₃ +ℤ src ≡ s₀ +ℤ (if b then q else pos 0)
pour true s₀ s₁ s₂ s₃ src d q e h k = omega (int_laws, parts_of_eq e, parts_of_eq h, parts_of_eq k)
pour false s₀ s₁ s₂ s₃ src d q e h k = omega (int_laws, parts_of_eq e, parts_of_eq h, parts_of_eq k)

module _ (part : ℕ) (to : Option ℕ) (db₁ db₂ db₃ : Db) (d : StockItem) (q total : ℤ)
    (t : Transaction) (unique : IsUnique db₁.items) (there : d.location_id ≡ to)
    (names : t.stock_item_id ≡ d.id) (e : Emptied db₁ (sources part to db₁.items) (pos 0) total db₂)
    (c : Changed db₂ q t d db₃) where
  no_source : (j : ℕ) (x : StockItem) → find_item j db₂.items ≡ some x → is_source part to x ≡ false
  no_source j x f = elim (Option-cases (find_item j (sources part to db₁.items))) [
    | inr (s, hit) ↦
        let same : record s { quantity = pos 0 } ≡ x = cc (e.emptied j s hit, f) in
        rw (← same) (holds_nothing part to s)
    | inl miss ↦
        let before : find_item j db₁.items ≡ some x = sym (e.others j miss) ∙ f in
        ground (arith, find_item-sources part to j db₁.items unique)
  ]

  none_after :
      (j : ℕ) (x : StockItem) → find_item j db₃.items ≡ some x → is_source part to x ≡ false
  none_after j x f = elim (Bool-cases (j == t.stock_item_id)) [
    | inl hit ↦
        let same : record d { quantity = q } ≡ x = ground (arith, c.found) in
        rw (← same) (at_destination part to (record d { quantity = q }) there)
    | inr miss ↦ no_source j x (sym (c.other_rows j (ground arith)) ∙ f)
  ]

gather-eq-ok :
    (env : Env) (db : Db) (part : ℕ) (to user : Option ℕ) (s : StockItem) (ss : List StockItem)
    (moved : ℤ) (db' : Db)
    → gather env db part to user (s ∷ ss) ≡ ok (moved, db')
    → (d : StockItem) × (db₁ : Db) × (db₂ : Db) × (find_or_create env db part to none ≡ ok (d, db₁))
      × (empty_sources env to user db₁ (pos 0) (s ∷ ss) ≡ ok (moved, db₂))
      × (record_change db₂
            (d.quantity +ℤ moved)
            (bulk_row env user d.id moved (d.quantity +ℤ moved) none to)
          ≡ ok db')
unfolding gather
gather-eq-ok env db part to user s ss moved db' h =
    elim (Outcome-cases (find_or_create env db part to none)) [
      | inr (_, e₁) ↦ absurd (ground arith)
      | inl ((d, db₁), e₁) ↦ elim (Outcome-cases (empty_sources env to user db₁ (pos 0) (s ∷ ss))) [
        | inr (_, e₂) ↦ absurd (ground arith)
        | inl ((m, db₂), e₂) ↦
            elim (Outcome-cases (
              record_change db₂ (d.quantity +ℤ m)
                (bulk_row env user d.id m (d.quantity +ℤ m) none to))) [
                  | inr (_, e₃) ↦ absurd (ground arith)
                  | inl (db₃, e₃) ↦
                      let (same, tables) : (m ≡ moved) × (db₃ ≡ db') = ground arith in
                      (d, db₁, db₂, e₁, rw (← same) e₂, rw (← same, ← tables) e₃)
                ]
      ]
    ]

Stand-sources :
    (part : ℕ) (to : Option ℕ) (xs : List StockItem) → IsUnique xs → Stand xs (sources part to xs)
Stand-sources part to xs u j s f = ground (arith, find_item-sources part to j xs u)

pub gather-Gathered :
    (env : Env) (db : Db) (part : ℕ) (to user : Option ℕ) (s : StockItem) (ss : List StockItem)
    (moved : ℤ) (db' : Db)
    → IsSound db
    → sources part to db.items ≡ s ∷ ss
    → gather env db part to user (s ∷ ss) ≡ ok (moved, db')
    → Gathered db part to moved db'
gather-Gathered env db part to user s ss moved db' sound e h =
    let (d, db₁, db₂, at_hand, emptied, changed) =
      gather-eq-ok env db part to user s ss moved db' h in
    let a = find_or_create-IsAtHand env db part to none d db₁ sound at_hand in
    let same : sources part to db₁.items ≡ s ∷ ss = sources-IsAtHand db db₁ part to d a ∙ e in
    let loop : Emptied db₁ (sources part to db₁.items) (pos 0) moved db₂ =
      empty_sources-Emptied env to user db₁ (pos 0) (sources part to db₁.items) moved db₂ a.sound
        (IsUnique-sources part to db₁.items a.sound.unique)
        (Stand-sources part to db₁.items a.sound.unique) (rw same emptied) in
    let row = bulk_row env user d.id moved (d.quantity +ℤ moved) none to in
    let stands : find_item d.id db₂.items ≡ some d =
      loop.others d.id (not_source d db₁ a) ∙ a.found in
    let c =
      record_change-Changed db₂ (d.quantity +ℤ moved) row d db' loop.sound
        (unfold bulk_row in stands) (unfold bulk_row in omega int_laws) (unfold bulk_row in refl)
        changed in
    record {
      sound = c.sound;
      total =
          loop.total_is
          ∙ zero-+ℤ _
          ∙ ap (sum_where (λ p l. true)) (sources-IsAtHand db db₁ part to d a);
      sums = λ sel.
          pour (sel part to) (sum_where sel db.items) (sum_where sel db₁.items)
            (sum_where sel db₂.items) (sum_where sel db'.items)
            (sum_where sel (sources part to db.items)) d.quantity moved (a.sums sel)
            (rw (← sources-IsAtHand db db₁ part to d a) (loop.sums sel))
            (rw (← a.of_part, ← a.at_location) (c.sums sel));
      nothing_left = sources_none part to db'.items c.sound.unique (
          none_after part to db₁ db₂ db' d (d.quantity +ℤ moved) moved row a.sound.unique
            a.at_location (unfold bulk_row in refl) loop c);
    }
  where
    not_source :
        (d : StockItem) (db₁ : Db)
        → IsAtHand db part to d db₁
        → find_item d.id (sources part to db₁.items) ≡ none
    not_source d db₁ a = ground (
      arith,
      find_item-sources part to d.id db₁.items a.sound.unique,
      a.found,
      at_destination part to d a.at_location,
    )
