-- ===== src/Barcode.antt =====
-- The codes on distributors' bags: internal/barcode.
pub mod Text
pub mod Label
pub mod Eigp
pub mod Lcsc
