-- ===== src/DiGen.antt =====
-- The generator of dependency injection code (cmd/alya-di).
pub mod Model
pub mod Resolve
pub mod Names
pub mod Load
pub mod Emit
pub mod Gen
