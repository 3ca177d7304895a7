-- ===== src/DiGen/Resolve.antt =====
-- The resolution of a graph (cmd/alya-di/resolve.go): from the outputs and the parameters of the
-- invokes down to the inputs, with the providers in the order in which they are built.
mod Defs
mod Order
pub mod Ends
mod Cycles
mod Tests
pub mod Plan
unfoldable pub use Defs.*
