-- ===== src/Tests/Skips.antt =====
-- Runs of the skip ledger and of the drain.
use pdexplorer.Prelude.{
  ℕ, ◌≤◌, ◌≡◌, refl, ◌↔◌, inl, inr, true, none, some, List, [], ◌∷◌, ◌++◌, length, arith,
}
use pdexplorer.Prelude.Int.{pos}
use pdexplorer.Prelude.Js.{int}
use pdexplorer.Indexer.SkipTail.{
  Range, RawRange, to_raw, read_range, read_ranges, merge_into, coalesce, normalize_ranges,
  normalize_tail, max_tail_ranges, add_tail, take_from_tail, size_of, tail_size,
}
use pdexplorer.Indexer.SkipTail.Coverage.{Covers, IsNormal}
use pdexplorer.Indexer.SkipTail.Bound.{add_tail-Covers, add_tail-bounded}
use pdexplorer.Indexer.SkipTail.Take.{Holds, take_from_tail-conserves}
use pdexplorer.Indexer.Skipped.{SkipState, record_skipped_range}
use pdexplorer.Indexer.Skipped.Owed.{Owed, has_row, record_skipped_range-Owed}
use pdexplorer.Indexer.Skipped.Drained.{drains, drains-queued}

abbrev low : Range
low = record { lo = 5; hi = 9 }

abbrev high : Range
high = record { lo = 20; hi = 21 }

abbrev stored : List RawRange
stored = to_raw high ∷ to_raw low ∷ []

abbrev begun : SkipState
begun = record { failures = []; tails = λ _. [] }

abbrev owing : SkipState
owing = record { failures = []; tails = λ _. stored }

read_stored : read_ranges stored ≡ high ∷ low ∷ []
unfolding read_ranges read_range
read_stored = refl

size_stored : tail_size stored ≡ 7
unfolding tail_size size_of normalize_tail normalize_ranges coalesce merge_into read_ranges
    read_range
size_stored = refl

nine-Owed : Owed "transactions" 9 owing
nine-Owed = rw read_stored (inr (inr (inl (omega arith, omega arith))))

drains-queued_example :
    has_row "transactions" 9 (drains 3 100 "transactions" none 3 owing).failures ≡ true
drains-queued_example =
    drains-queued 3 100 "transactions" none 3 owing 9 (rw size_stored (omega arith)) nine-Owed

record_skipped_range-Owed_example :
    Owed "transactions" 7 (record_skipped_range 2 100 "transactions" 10 5 none begun).0
record_skipped_range-Owed_example =
    record_skipped_range-Owed 2 100 "transactions" 10 5 none begun 7
      (inr (omega arith, omega arith))

add_tail-Covers_example :
    ((h : ℕ)
      → Covers (read_ranges (stored ++ to_raw low ∷ [])) h
      → Covers (add_tail stored (to_raw low)) h)
    × IsNormal (add_tail stored (to_raw low))
add_tail-Covers_example = add_tail-Covers stored (to_raw low)

read_low : read_range (to_raw low) ≡ some low
unfolding read_range
read_low = refl

add_tail-bounded_example :
    (length (add_tail stored (to_raw low)) ≤ max_tail_ranges)
    × (length (normalize_tail (stored ++ to_raw low ∷ [])) ≤ max_tail_ranges
        → add_tail stored (to_raw low) ≡ normalize_tail (stored ++ to_raw low ∷ []))
add_tail-bounded_example = add_tail-bounded stored (to_raw low) low read_low

take_from_tail-conserves_example :
    Holds (take_from_tail stored (int (pos 3))) 9 ↔ Covers (read_ranges stored) 9
take_from_tail-conserves_example = take_from_tail-conserves stored 3 9
