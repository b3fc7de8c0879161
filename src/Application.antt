-- ===== src/Application.antt =====
-- src/application: the coordination of turns.
pub mod Coordinator
mod Tests
