-- ===== src/Jobs/Machine.antt =====
-- How the service's functions run, and the rules for what they leave alone.
mod Defs
mod Effects
mod Invariants
mod Within
mod Untouched
mod Sets
unfoldable pub use Defs.*
unfoldable pub use Sets.*
pub use Effects.*
pub use Invariants.*
pub use Within.*
pub use Untouched.*
