-- ===== src/Stock/Moved.antt =====
-- What it means that a quantity of a part went from one location to another: the specification of
-- the methods of internal/repository/stock.go that move stock.
use firebin_api.Base.{ℕ, Bool, true, false, Option, ◌≡◌, if◌then◌else◌}
use firebin_api.Base.Int.{ℤ, pos, ◌+ℤ◌, ◌-ℤ◌, int_laws, parts_of_eq}
use firebin_api.Stock.Model.{Db}
use firebin_api.Stock.Table.{sum_where}
use firebin_api.Stock.Sums.{weight}

-- Of every selection of parts and locations: what held the origin lost the quantity, and what holds
-- the destination has it.
abbrev pub Moves : Db → Db → ℕ → Option ℕ → Option ℕ → ℤ → Type 0
Moves db db' part from to q =
    (sel : ℕ → Option ℕ → Bool)
    → sum_where sel db'.items +ℤ weight sel part from q
      ≡ sum_where sel db.items +ℤ weight sel part to q

-- Of every selection by part alone: the sum is the same.
abbrev pub Conserves : Db → Db → Type 0
Conserves db db' =
    (sel : ℕ → Bool) → sum_where (λ p l. sel p) db'.items ≡ sum_where (λ p l. sel p) db.items

-- One side loses `q` and the other gains it.
pub out_and_in :
    (b c : Bool) (s₀ s₁ s₂ x d q : ℤ)
    → s₁ +ℤ (if b then x else pos 0) ≡ s₀ +ℤ (if b then x -ℤ q else pos 0)
    → s₂ +ℤ (if c then d else pos 0) ≡ s₁ +ℤ (if c then d +ℤ q else pos 0)
    → s₂ +ℤ (if b then q else pos 0) ≡ s₀ +ℤ (if c then q else pos 0)
out_and_in true true s₀ s₁ s₂ x d q h k = omega (int_laws, parts_of_eq h, parts_of_eq k)
out_and_in true false s₀ s₁ s₂ x d q h k = omega (int_laws, parts_of_eq h, parts_of_eq k)
out_and_in false true s₀ s₁ s₂ x d q h k = omega (int_laws, parts_of_eq h, parts_of_eq k)
out_and_in false false s₀ s₁ s₂ x d q h k = omega (int_laws, parts_of_eq h, parts_of_eq k)

cancel_weight :
    (b : Bool) (s₀ s₁ q : ℤ)
    → s₁ +ℤ (if b then q else pos 0) ≡ s₀ +ℤ (if b then q else pos 0)
    → s₁ ≡ s₀
cancel_weight true s₀ s₁ q h = omega (int_laws, parts_of_eq h)
cancel_weight false s₀ s₁ q h = omega (int_laws, parts_of_eq h)

pub Moves-Conserves :
    (db db' : Db) (part : ℕ) (from to : Option ℕ) (q : ℤ)
    → Moves db db' part from to q
    → Conserves db db'
Moves-Conserves db db' part from to q m sel = cancel_weight (sel part) _ _ q (m (λ p l. sel p))
