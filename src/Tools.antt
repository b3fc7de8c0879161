-- ===== src/Tools.antt =====
-- src/tools: the registry and the normalization of tool arguments.
pub mod Normalize
pub mod Files
pub mod Registry
mod Tests
