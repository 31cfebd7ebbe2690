-- ===== src/Engine.antt =====
-- internal/engine/engine.go: the execution of a chain for one request.
pub mod State
pub mod Words
pub mod Resolve
pub mod Attempt
pub mod Finish
pub mod First
pub mod Legacy
pub mod Full
pub mod Run
pub mod Budget
pub mod Attempts
pub mod Outputs
pub mod FirstEnds
pub mod LegacyEnds
pub mod FullEnds
pub mod Limiter
mod Tests
