-- ===== src/Agent.antt =====
-- agent/agent-loop.ts: the explicit turn and step loop.
pub mod Interface
pub mod Action
pub mod Calls
pub mod Emit
pub mod Ensures
pub mod Keeps
pub mod Dispatch
pub mod Response
pub mod Steps
pub mod Recovery
pub mod Turn
pub mod Protocol
pub mod Denial
pub mod Repaired
pub mod Demo
mod Tests
