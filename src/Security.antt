-- ===== src/Security.antt =====
-- src/security: the central safety policy.
pub mod Patterns
pub mod Paths
pub mod Commands
pub mod Policy
mod Tests
