-- ===== src/Stock/History.antt =====
-- Any sequence of calls of the stock repository.
pub mod Examples
use firebin_api.Base.{
  ℕ, String, Option, List, [], ◌∷◌, ◌≡◌, refl, Outcome, ok, err, none, some, sym, arith,
}
use firebin_api.Base.Int.{ℤ, pos}
use firebin_api.Stock.Model.{Db, Env, StockError, PartRow, Location}
use firebin_api.Stock.Tx.{Reply, commit}
use firebin_api.Stock.Ledger.{IsSound, balance, last_result}
use firebin_api.Stock.Lookup.{quantity_of}
use firebin_api.Stock.Steps.{commit-eq-ok}
use firebin_api.Stock.Views.{commit-IsSound}
use firebin_api.Stock.Adjust.{AdjustParams, adjust, adjust_lot}
use firebin_api.Stock.Adjust.Sound.{adjust-IsSound, adjust_lot-IsSound}
use firebin_api.Stock.Transfer.{MoveParams, move, move_tx, move_part, relocate, gather, sources}
use firebin_api.Stock.Transfer.Move.{move-IsSound}
use firebin_api.Stock.Transfer.Bulk.{move_part-IsSound}
use firebin_api.Stock.Transfer.Relocate.{relocate-IsSound}
use firebin_api.Stock.Lots.{SplitParams, split_lot, merge_lot, delete_empty_lots, merge_tx}
use firebin_api.Stock.Lots.Split.{split_lot-IsSound}
use firebin_api.Stock.Lots.Merge.{merge_lot-IsSound}
use firebin_api.Stock.Lots.Clean.{delete_empty_lots_lem}

-- The calls that change stock.
pub data Call : Type 0 where
  adjusts : AdjustParams → Call
  adjusts_lot : ℕ → String → ℤ → Option ℕ → Call
  moves : MoveParams → Call
  moves_part : ℕ → Option ℕ → Option ℕ → Call
  relocates : ℕ → Option ℕ → Option ℕ → Call
  splits : SplitParams → Call
  merges : ℕ → ℕ → Option ℕ → Call
  cleans : Call

unfoldable pub step : Env → Db → Call → Db
step env db (adjusts p) = (adjust env db p).1
step env db (adjusts_lot lot kind q user) = (adjust_lot env db lot kind q user).1
step env db (moves p) = (move env db p).1
step env db (moves_part part to user) = (move_part env db part to user).1
step env db (relocates lot to user) = (relocate env db lot to user).1
step env db (splits p) = (split_lot env db p).1
step env db (merges source target user) = (merge_lot env db source target user).1
step env db cleans = (delete_empty_lots db).1

unfoldable pub run : Db → List (Env × Call) → Db
run db [] = db
run db ((env, c) ∷ cs) = run (step env db c) cs

step-IsSound : (env : Env) (db : Db) (c : Call) → IsSound db → IsSound (step env db c)
unfolding step
step-IsSound env db (adjusts p) s = adjust-IsSound env db p s
step-IsSound env db (adjusts_lot lot kind q user) s = adjust_lot-IsSound env db lot kind q user s
step-IsSound env db (moves p) s = move-IsSound env db p s
step-IsSound env db (moves_part part to user) s = move_part-IsSound env db part to user s
step-IsSound env db (relocates lot to user) s = relocate-IsSound env db lot to user s
step-IsSound env db (splits p) s = split_lot-IsSound env db p s
step-IsSound env db (merges source target user) s = merge_lot-IsSound env db source target user s
step-IsSound env db cleans s = (delete_empty_lots_lem db s).0

run-IsSound : (db : Db) (cs : List (Env × Call)) → IsSound db → IsSound (run db cs)
unfolding run
run-IsSound db [] s = s
run-IsSound db ((env, c) ∷ cs) s = run-IsSound (step env db c) cs (step-IsSound env db c s)

-- The tables before any stock was recorded.
abbrev pub stockless : List PartRow → List Location → Db
stockless ps ls = record { items = []; transactions = []; parts = ps; locations = ls }

pub stockless-IsSound : (ps : List PartRow) (ls : List Location) → IsSound (stockless ps ls)
unfolding balance last_result quantity_of
stockless-IsSound ps ls = record {
  unique = tt;
  balanced = λ k. refl;
  current = λ k. refl;
  known = tt;
}

-- After any calls, whether they succeed or fail, on tables that held no stock at first: lots have
-- different identifiers and known parts, and of every lot the quantity is the sum of the movements
-- in its log, and the quantity that the newest of them gives.
pub audit :
    (ps : List PartRow) (ls : List Location) (cs : List (Env × Call))
    → IsSound (run (stockless ps ls) cs)
audit ps ls cs = run-IsSound (stockless ps ls) cs (stockless-IsSound ps ls)
