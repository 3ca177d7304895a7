-- ===== src/DiGen/Gen.antt =====
-- The command `alya-di gen` (cmd/alya-di/main.go).
mod Defs
mod Fails
pub mod Written
mod Tests
unfoldable pub use Defs.*
