-- ===== src/Filter.antt =====
-- The filter of plugin/src/rvc/filter/rvc-filter.cpp.
pub mod Threads
pub mod Validation
pub mod Update
pub mod Audio
pub mod Outcome
pub mod Page
pub mod Defaults
pub mod Creation
pub mod LongIndex
