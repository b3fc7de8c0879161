-- ===== src/Session.antt =====
-- src/session: what is stored of an event.
pub mod Redaction
pub mod Compensation
pub mod Query
mod Tests
