-- ===== src/Router/Timeout.antt =====
-- TimeoutMiddleware (router/timeout_middelware.go): the goroutine of the request, that of the
-- handler, the clock, and the two channels between them, one access at a time. Writer has its
-- writer, Defs the states and steps.
pub mod Writer
pub mod Defs
pub mod Invariant
pub mod Progress
mod Response
mod Tests
