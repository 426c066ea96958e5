-- ===== src/Gbufio.antt =====
-- The package gbufio: buffered readers and writers over those of a caller.
pub mod Writer
pub mod Reader
pub mod ComparableReader
pub mod Sizes
