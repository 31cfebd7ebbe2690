-- ===== src/Config.antt =====
-- internal/config/config.go: the configuration that the environment gives, and the manager that resolves
-- settings from it and from the database. The manager's mutex makes each of its methods one step.
pub mod Keys
pub mod Bindings
pub mod Load
pub mod Resolve
pub mod Pinned
pub mod Environment
mod Tests
