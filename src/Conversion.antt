-- ===== src/Conversion.antt =====
-- plugin/src/rvc/filter/rvc-filter-conversion.cpp: the conversion worker behind the filter.
pub mod Frames
pub mod Codec
pub mod Worker
pub mod Loop
pub mod Input
pub mod System
pub mod Registry
pub mod Report
pub mod Playback
pub mod Request
