-- ===== src/Agent/Keeps.antt =====
-- Properties of the log and its sequence counter that every method of the loop keeps.
pub mod Rules
pub mod Dispatch
pub mod Loop
pub mod Recovery
pub mod Runs
pub mod Numbering
pub mod Logs
