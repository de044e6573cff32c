-- ===== src/Execution.antt =====
-- src/lib/sbio/execution: how the distribution managers hand out steps and have them fetched.
pub mod Fetching
pub mod Serial
pub mod Threaded
