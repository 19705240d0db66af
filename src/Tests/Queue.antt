-- ===== src/Tests/Queue.antt =====
-- Runs of the retry queue and of what reads it.
use pdexplorer.Prelude.{
  ◌==◌, if◌then◌else◌, ℕ, ◌≤◌, ◌≡◌, refl, ◌↔◌, true, false, none, some, List, [], ◌∷◌, ◌+◌, ◌-◌,
  ◌&&◌, leb, str_eq, String, arith,
}
use pdexplorer.Prelude.Int.{pos, negsuc, ◌≤ℤ◌}
use pdexplorer.Indexer.SkipTail.{range_from}
use pdexplorer.Indexer.ScanQueue.{
  Failure, message, row_at, fresh, get_lowest_scan_failure, count_scan_failures, invalid_range, ok,
  err, queue_range_if_absent, queue_between, queue_heights, insert_range, commit_range,
  database_error, Replies, fine, statement_fails,
}
use pdexplorer.Indexer.ScanQueue.Rows.{IsKeyed, upserted}
use pdexplorer.Indexer.ScanQueue.Ranges.{closed, queue_range_lem, queue_range_atomic}
use pdexplorer.Indexer.Watermark.Trust.{watermark, watermark-trust}
use pdexplorer.Indexer.Status.{derive_index_status, synced, state_of, IndexState}
use pdexplorer.Indexer.Status.Honest.{synced-watermark}

abbrev row : ℕ → ℕ → Failure
row b n = record {
  indexer = "transactions";
  block = b;
  attempts = n;
  last_error = [];
  first_at = 1;
  last_at = 1;
}

abbrev rows : List Failure
rows = row 7 10 ∷ row 4 2 ∷ []

rows-IsKeyed : IsKeyed rows
unfolding row_at
rows-IsKeyed = (refl, (refl, tt))

row_at-rows : row_at "transactions" 7 rows ≡ some (row 7 10)
unfolding row_at
row_at-rows = refl

watermark-trust_example :
    (pos 3 ≤ℤ watermark "transactions" rows 9 1)
    ↔ ((c : ℕ) → c ≤ 3 → row_at "transactions" c rows ≡ none)
watermark-trust_example =
    watermark-trust "transactions" rows 9 1 3 (omega arith) (omega arith) (omega arith)

abbrev answers : Replies
answers = record { begin_fails = false; insert_at = λ _. fine; on_commit = fine }

-- The insert at height 7 fails, after that at 6.
abbrev fails_at_7 : Replies
fails_at_7 = record answers { insert_at = λ n. if n == 7 then statement_fails else fine }

queue_range_lem_example :
    (added : ℕ) × (added ≤ 8 + 1 - 6)
    × ((queue_range_if_absent answers 5 "transactions" (pos 6) (pos 8) none (closed rows)).1
        ≡ ok (record { added = added; already_queued = 8 + 1 - 6 - added }))
    × ((j : String) (c : ℕ)
        → row_at j c
            (queue_range_if_absent answers 5 "transactions"
              (pos 6)
              (pos 8)
              none
              (closed rows)).0.table
          ≡ (if str_eq "transactions" j && (leb 6 c && leb c 8)
              then upserted (fresh "transactions" c 0 (message none) 5) (λ r. r) (row_at j c rows)
              else row_at j c rows))
queue_range_lem_example =
    queue_range_lem answers 5 "transactions" 6 8 none (closed rows)
      (record { begins = refl; inserts = λ n. refl; commits = refl; outside = refl }) refl
      (omega arith) (omega arith) (omega arith)

below_zero :
    (queue_range_if_absent answers 5 "transactions" (negsuc 0) (pos 6) none (closed rows)).1
    ≡ err invalid_range
unfolding queue_range_if_absent queue_between
below_zero = refl

halfway :
    (queue_range_if_absent fails_at_7 5 "transactions" (pos 6) (pos 8) none (closed rows)).1
    ≡ err database_error
unfolding queue_range_if_absent queue_between queue_heights insert_range commit_range range_from
halfway = refl

queue_range_atomic_example :
    (queue_range_if_absent fails_at_7 5 "transactions" (pos 6) (pos 8) none (closed rows)).0
    ≡ closed rows
queue_range_atomic_example =
    queue_range_atomic fails_at_7 5 "transactions" (pos 6) (pos 8) none rows database_error halfway

is_synced :
    derive_index_status (state_of true true 0 (count_scan_failures "governance" 10 rows)) ≡ synced
unfolding derive_index_status count_scan_failures
is_synced = refl

synced-watermark_example :
    (get_lowest_scan_failure "governance" rows ≡ none) × (watermark "governance" rows 9 1 ≡ pos 9)
synced-watermark_example =
    synced-watermark "governance" 10 rows true true 0 9 1 (omega arith) is_synced

abbrev stuck : IndexState
stuck = state_of true true 0 (record { retrying = 1; permanent = 1; total = 2 })
