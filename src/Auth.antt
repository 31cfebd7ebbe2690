-- ===== src/Auth.antt =====
-- internal/auth: API keys, identities, sessions and the guards of requests, in the children; the
-- limiter of requests is in RateLimit. A moment is a number of nanoseconds.
pub mod Keys
pub mod Hash
pub mod Identity
pub mod Storage
pub mod Resolve
pub mod Sessions
pub mod Accepts
pub mod ClientIp
mod Tests
