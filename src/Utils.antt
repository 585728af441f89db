-- ===== src/Utils.antt =====
-- plugin/src/utils: strings, files and the processor count.
pub mod Strings
pub mod Hardware
pub mod Renderer
pub mod Files
