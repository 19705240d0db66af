-- ===== src/Indexer/Status.antt =====
-- lib/index-status.js: the status an indexer reports, and its account of what it is missing.
pub mod Honest
use pdexplorer.Prelude.{ℕ, Bool, true, false, ◌||◌, not, List, [], ◌∷◌, ltb, ◌==◌, if◌then◌else◌}
use pdexplorer.Indexer.ScanQueue.{Counts}

pub data IndexStatus : Type 0 where
  error initializing degraded repairing backfilling syncing synced : IndexStatus

-- The argument of `deriveIndexStatus`, a field for each of its names.
pub record IndexState : Type 0 where
  pub initialized : Bool
  pub backfill_complete : Bool
  pub known_gap_blocks : ℕ
  pub retryable_failures : ℕ
  pub permanent_failures : ℕ
  pub had_error_this_tick : Bool

unfoldable pub derive_index_status : IndexState → IndexStatus
derive_index_status s =
    if s.had_error_this_tick
    then error
    else if not s.initialized
    then initializing
    else if ltb 0 s.permanent_failures
    then degraded
    else if ltb 0 s.known_gap_blocks || ltb 0 s.retryable_failures
    then repairing
    else if not s.backfill_complete
    then backfilling
    else synced

-- A part of the text that `describeIndexStatus` joins, with the count it states.
pub data Part : Type 0 where
  missing queued abandoned : ℕ → Part

abbrev push_if : ℕ → Part → List Part → List Part
push_if n part rest = if ltb 0 n then part ∷ rest else rest

unfoldable pub describe_index_status : ℕ → ℕ → ℕ → List Part
describe_index_status gaps retryable permanent =
    push_if gaps (missing gaps)
      (push_if retryable (queued retryable) (push_if permanent (abandoned permanent) []))

abbrev is_moving : IndexStatus → Bool
is_moving initializing = true
is_moving syncing = true
is_moving backfilling = true
is_moving error = false
is_moving degraded = false
is_moving repairing = false
is_moving synced = false

unfoldable pub should_show_crawl_spinner : IndexStatus → ℕ → Bool
should_show_crawl_spinner status row_count = if ltb 0 row_count then false else is_moving status

-- What the chain tick of server.js gives to `deriveIndexStatus`, from the counts of the queue.
abbrev pub state_of : Bool → Bool → ℕ → Counts → IndexState
state_of initialized backfill_complete known_gap_blocks counts = record {
  initialized = initialized;
  backfill_complete = backfill_complete;
  known_gap_blocks = known_gap_blocks;
  retryable_failures = counts.retrying;
  permanent_failures = counts.permanent;
  had_error_this_tick = false;
}
