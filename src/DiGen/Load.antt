-- ===== src/DiGen/Load.antt =====
-- Reading the declaration of a graph (cmd/alya-di/load.go).
mod Literal
pub mod Syntax
mod Packages
mod Parse
mod Merge
pub mod Ends
pub mod Expansion
pub mod Refines
mod Acyclic
pub mod Complete
mod Cycles
mod Providers
pub mod Fixture
mod Tests
unfoldable pub use Literal.*
unfoldable pub use Syntax.*
unfoldable pub use Packages.*
unfoldable pub use Parse.*
unfoldable pub use Merge.*
