-- ===== src/Iteration.antt =====
-- src/lib/sbio/core/iteration.hh: iterations over several groups or several DataSources.
pub mod Plan
pub mod Ranges
pub mod Sources
mod Tests
