-- ===== src/Metadata.antt =====
-- The inventory of the groups and fields that a StreamBroker found (core/metadata.hh).
pub mod Order
pub mod Search
pub mod Sort
pub mod Keys
pub mod Names
pub mod Inventory
