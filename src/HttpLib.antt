-- ===== src/HttpLib.antt =====
-- The inventory as a KiCad HTTP library: internal/kicad/httplib, with texts as lists of code points.
pub mod Source
pub mod Types
pub mod Mapping
pub mod Snapshot
pub mod Examples
