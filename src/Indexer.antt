-- ===== src/Indexer.antt =====
-- The indexer: what it has scanned, what it skipped and what it owes.
pub mod SkipTail
pub mod ScanQueue
pub mod Watermark
pub mod Skipped
pub mod Reorg
pub mod Gaps
pub mod Status
pub mod Migration
pub mod BlockGaps
