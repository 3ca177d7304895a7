-- ===== src/Wscutils.antt =====
-- The web service utilities (wscutils/).
pub mod Optional
pub mod Messages
pub mod Http
