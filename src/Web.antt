-- ===== src/Web.antt =====
-- src/web: the parts of the web server that keep state between requests.
pub mod Hub
pub mod Projection
pub mod Idempotency
mod Tests
