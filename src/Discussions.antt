-- ===== src/Discussions.antt =====
-- The discussion threads of governance items: lib/discussion-threads.js, with their table in db.js.
pub mod Table
pub mod Trust
pub mod Reconcile
pub mod Tick
