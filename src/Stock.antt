-- ===== src/Stock.antt =====
-- The stock repository of internal/repository/stock.go: lots, the movement log, and the operations
-- on them, each of which runs in one database transaction.
pub mod Model
pub mod Table
pub mod Tx
pub mod Lookup
pub mod Sums
pub mod Earliest
pub mod Ledger
pub mod Steps
pub mod Views
pub mod Moved
pub mod Adjust
pub mod Transfer
pub mod Lots
pub mod Feed
pub mod History
