-- ===== src/Security/Patterns.antt =====
-- security/central-safety-policy.ts: its regular expressions, each a term of Common/Regex.
pub mod Paths
pub mod Denials
pub mod Commands
