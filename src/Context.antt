-- ===== src/Context.antt =====
-- src/context: the projection of the events of a session to the messages of a model request.
pub mod Trim
pub mod Digests
pub mod Conversation
pub mod Messages
pub mod Build
mod Tests
