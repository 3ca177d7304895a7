-- ===== src/Router/Auth.antt =====
-- AuthMiddleware (router/auth_middleware.go). The OIDC provider, its verifier and the JWT parser are
-- functions of the middleware's records and of the sections. An instant is in nanoseconds. Log lines
-- are left out.
pub mod Types
pub mod ClaimChecks
pub mod Cache
pub mod Verify
pub mod Setup
mod Validity
mod Admission
mod Trust
mod Configured
mod Tests
