-- ===== src/Source.antt =====
-- internal/source: the files, journals and lines that a collector reads.
pub mod Lines
pub mod Tail
pub mod Search
pub mod Paths
pub mod Scope
pub mod Names
pub mod Listing
pub mod Opened
pub mod Gather
