-- ===== src/Kicad.antt =====
-- KiCad design files: internal/kicad.
pub mod Sexpr
pub mod Bom
pub mod Panel
pub mod Examples
