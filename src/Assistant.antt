-- ===== src/Assistant.antt =====
-- The chat assistant: internal/assistant.
pub mod History
pub mod Examples
