-- ===== src/Feeds.antt =====
-- The lists of transactions and blocks: their pages, and their merge with what the browser holds.
pub mod TxPage
pub mod MergeRows
