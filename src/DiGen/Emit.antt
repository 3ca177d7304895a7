-- ===== src/DiGen/Emit.antt =====
-- The generated code (cmd/alya-di/emit.go).
mod Defs
mod Compiles
mod Redeclared
mod Tests
unfoldable pub use Defs.*
