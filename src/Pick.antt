-- ===== src/Pick.antt =====
-- The pick list of a board: internal/picklist/picklist.go.
pub mod Model
pub mod Demand
pub mod Allocate
pub mod Walk
pub mod Compute
pub mod Source
pub mod Examples
