-- ===== src/Execution.antt =====
-- src/execution: running commands.
pub mod Buffer
mod Tests
