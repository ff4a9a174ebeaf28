-- ===== src/Kicad/Bom.antt =====
-- Bills of materials from design files: internal/kicad/bom.go.
pub mod Model
pub mod Extract
pub mod Order
pub mod Group
pub mod Rows
pub mod Placed
