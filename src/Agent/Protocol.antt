-- ===== src/Agent/Protocol.antt =====
-- The order of the events of a session, and the proof that the loop keeps it.
pub mod Order
pub mod Report
pub mod Closing
pub mod Execution
pub mod Dispatch
pub mod Response
pub mod Steps
pub mod Audit
pub mod Turns
