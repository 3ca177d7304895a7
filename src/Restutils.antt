-- ===== src/Restutils.antt =====
-- The REST helpers (restutils/).
pub mod Types
pub mod Problem
pub mod Bind
pub mod Rules
