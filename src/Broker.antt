-- ===== src/Broker.antt =====
-- The StreamBroker's generic index over a stream's steps (core/broker.hh), and what it keeps for a
-- segment.
pub mod Index
pub mod Fetch
pub mod Cache
pub mod Lifecycle
mod Tests
