-- ===== src/Indexer/Status/Honest.antt =====
-- What each status of lib/index-status.js promises.
use pdexplorer.Prelude.{
  ℕ, ◌+◌, ◌≤◌, ◌<◌, ◌≡◌, refl, ◌↔◌, Bool, true, false, none, List, [], ◌∷◌, String, arith, str_eq,
  filter_by, length, ◌⊎◌,
}
use pdexplorer.Prelude.Int.{pos}
use pdexplorer.Indexer.ScanQueue.{Failure, get_lowest_scan_failure, count_scan_failures}
use pdexplorer.Indexer.ScanQueue.Lowest.{count-total}
use pdexplorer.Indexer.Watermark.{contiguous_watermark}
use pdexplorer.Indexer.Watermark.Trust.{watermark}
use pdexplorer.Indexer.Status.{
  degraded, backfilling, synced, IndexState, derive_index_status, describe_index_status, state_of,
}

-- The status is Synced exactly when the tick had no error, the index has begun and has reached its
-- floor, and no gap and no failure, retried or given up, is known.
pub synced_iff :
    (s : IndexState)
    → (derive_index_status s ≡ synced) ↔ (
        (s.had_error_this_tick ≡ false)
        × (s.initialized ≡ true)
        × (s.backfill_complete ≡ true)
        × (s.known_gap_blocks ≡ 0)
        × (s.retryable_failures ≡ 0)
        × (s.permanent_failures ≡ 0))
unfolding derive_index_status
synced_iff s = ground arith

-- Without an error and once begun, the status is Degraded exactly when some failure was given up,
-- and the explanation beside it is empty exactly when the status is Synced or Backfilling.
pub degraded_iff :
    (s : IndexState)
    → s.had_error_this_tick ≡ false
    → s.initialized ≡ true
    → ((derive_index_status s ≡ degraded) ↔ (0 < s.permanent_failures))
      × ((derive_index_status s ≡ synced) ⊎ (derive_index_status s ≡ backfilling) ↔ (
          describe_index_status s.known_gap_blocks s.retryable_failures s.permanent_failures ≡ []))
unfolding derive_index_status describe_index_status
degraded_iff s ok begun = ground arith

length-none :
    (i : String) (table : List Failure)
    → length (filter_by (λ (r : Failure). str_eq r.indexer i) table) ≡ 0
    → get_lowest_scan_failure i table ≡ none
unfolding get_lowest_scan_failure
length-none i [] h = refl
length-none i (x ∷ xs) h = ground (arith, length-none i xs)

counts-none :
    (i : String) (max_attempts : ℕ) (table : List Failure)
    → (count_scan_failures i max_attempts table).retrying ≡ 0
    → (count_scan_failures i max_attempts table).permanent ≡ 0
    → get_lowest_scan_failure i table ≡ none
unfolding count_scan_failures
counts-none i max_attempts table r p =
    length-none i table (omega (arith, count-total i max_attempts table))

top-watermark :
    (i : String) (table : List Failure) (head_seen floor : ℕ)
    → floor ≤ head_seen + 1
    → get_lowest_scan_failure i table ≡ none
    → watermark i table head_seen floor ≡ pos head_seen
unfolding contiguous_watermark
top-watermark i table head_seen floor fits e = rw e (ground arith)

-- Where the floor is at most one above the height reached, a tick that reports Synced from the
-- counts of the queue, whatever the cap on attempts, has no row of its indexer in the queue, and
-- its watermark is the height it has reached.
pub synced-watermark :
    (i : String) (max_attempts : ℕ) (table : List Failure) (initialized complete : Bool)
    (gaps head_seen floor : ℕ)
    → floor ≤ head_seen + 1
    → derive_index_status
        (state_of initialized complete gaps (count_scan_failures i max_attempts table))
      ≡ synced
    → (get_lowest_scan_failure i table ≡ none) × (watermark i table head_seen floor ≡ pos head_seen)
synced-watermark i max_attempts table initialized complete gaps head_seen floor fits e =
    (empty, top-watermark i table head_seen floor fits empty)
  where
    empty : get_lowest_scan_failure i table ≡ none
    empty =
        (let (_, _, _, _, r, p) =
            (synced_iff
                (state_of initialized complete gaps (count_scan_failures i max_attempts table))).0
              e in
          counts-none i max_attempts table r p)
