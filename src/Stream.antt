-- ===== src/Stream.antt =====
-- plugin/src/rvc/filter/rvc-filter-stream.cpp: the sample queue and the stream assembler.
pub mod Queue
pub mod Assembler
