-- ===== src/Contracts.antt =====
-- src/contracts: the values, errors, results and events that the components exchange.
pub mod Value
pub mod Error
pub mod Event
pub mod Json
