-- ===== src/Provider.antt =====
-- src/provider: the reasoning and the tool calls that a provider streams.
pub mod Reasoning
pub mod Streaming
mod Tests
