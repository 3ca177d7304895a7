-- ===== src/Router.antt =====
-- The middlewares of the HTTP router (router/).
pub mod Errors
pub mod Timeout
pub mod Logging
pub mod Auth
