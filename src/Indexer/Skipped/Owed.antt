-- ===== src/Indexer/Skipped/Owed.antt =====
-- No skipped height is ever forgotten: it has a row in the queue, or it lies in the ledger.
use pdexplorer.Prelude.{
  ℕ, ◌+◌, ◌-◌, ◌≤◌, ◌≡◌, ◌⊎◌, ◌↔◌, Bool, true, false, Option, none, some, List, [], ◌∷◌, map,
  String, eq_iff, arith, min, max, In,
}
use pdexplorer.Indexer.SkipTail.{
  Range, RawRange, to_raw, add_tail, range_from, read_ranges, read_range,
}
use pdexplorer.Indexer.SkipTail.Coverage.{
  Covers, Covers-append, IsOrdered-Separated, read_ranges-to_raw,
}
use pdexplorer.Indexer.SkipTail.Bound.{add_tail-Covers, read_ranges-append_one}
use pdexplorer.Indexer.SkipTail.Take.{range_from-In}
use pdexplorer.Indexer.ScanQueue.{Failure, row_at, record_scan_failure, queue_one_if_absent}
use pdexplorer.Indexer.ScanQueue.Queueing.{row_at-record, row_at-queue}
use pdexplorer.Indexer.Skipped.{SkipState, set_tail, record_all, record_skipped_range, queue_all}

abbrev pub has_row : String → ℕ → List Failure → Bool
has_row i h table = elim (row_at i h table) [ none ↦ false | some _ ↦ true ]

-- The indexer still has `h` to scan, or has it in its ledger.
abbrev pub Owed : String → ℕ → SkipState → Type 0
Owed i h st = (has_row i h st.failures ≡ true) ⊎ Covers (read_ranges (st.tails i)) h

record_all-has_row :
    (now : ℕ) (i : String) (reason : Option (List ℕ)) (ns : List ℕ) (table : List Failure) (h : ℕ)
    → (has_row i h table ≡ true) ⊎ In h ns
    → has_row i h (record_all now i reason ns table) ≡ true
unfolding record_all
record_all-has_row now i reason [] table h m = ground arith
record_all-has_row now i reason (n ∷ ns) table h m = ground (
  arith,
  record_all-has_row now i reason ns (record_scan_failure now i n reason table) h,
  row_at-record now i i n h reason table,
  eq_iff i i,
)

pub queue_all-has_row :
    (now : ℕ) (i : String) (reason : Option (List ℕ)) (ns : List ℕ) (table : List Failure) (h : ℕ)
    → (has_row i h (queue_all now i reason ns table) ≡ true)
      ↔ ((has_row i h table ≡ true) ⊎ In h ns)
unfolding queue_all
queue_all-has_row now i reason [] table h = ground arith
queue_all-has_row now i reason (n ∷ ns) table h = ground (
  arith,
  queue_all-has_row now i reason ns (queue_one_if_absent now i n reason table).0 h,
  row_at-queue now i n reason i h table,
  eq_iff i i,
)

pub set_tail_self :
    (i : String) (ranges : List Range) (tails : String → List RawRange)
    → set_tail i ranges tails i ≡ map to_raw ranges
unfolding set_tail
set_tail_self i ranges tails = ground (arith, eq_iff i i)

read_range-to_raw : (r : Range) → r.lo ≤ r.hi → read_range (to_raw r) ≡ some r
unfolding read_range
read_range-to_raw r h = ground arith

-- The ledger after a span was added holds what it held, and the span.
added-Covers :
    (raw : List RawRange) (r : Range) (h : ℕ)
    → r.lo ≤ r.hi
    → Covers (read_ranges raw) h ⊎ ((r.lo ≤ h) × (h ≤ r.hi))
    → Covers (read_ranges (map to_raw (add_tail raw (to_raw r)))) h
added-Covers raw r h o c =
    let (covers, ordered) = add_tail-Covers raw (to_raw r) in
    rw (read_ranges-to_raw _ (IsOrdered-Separated 0 _ ordered)) (
      covers h (
        rw (read_ranges-append_one raw (to_raw r) r (read_range-to_raw r o))
          ((Covers-append (read_ranges raw) (r ∷ []) h).1 (ground arith))))

-- Whatever cap is set, after a span was skipped every height of it is owed, and every height that
-- was owed before.
pub record_skipped_range-Owed :
    (skip_record_max now : ℕ) (i : String) (from to : ℕ) (reason : Option (List ℕ)) (st : SkipState)
    (h : ℕ)
    → Owed i h st ⊎ ((min from to ≤ h) × (h ≤ max from to))
    → Owed i h (record_skipped_range skip_record_max now i from to reason st).0
unfolding record_skipped_range
record_skipped_range-Owed skip_record_max now i from to reason st h o = ground (
  arith,
  record_all-has_row now i reason (range_from lo cap) st.failures h,
  range_from-In lo cap h,
  added-Covers (st.tails i) rest h,
  set_tail_self i (add_tail (st.tails i) (to_raw rest)) st.tails,
)
  where
    lo : ℕ
    lo = min from to

    cap : ℕ
    cap = min (max from to + 1 - lo) skip_record_max

    rest : Range
    rest = record { lo = lo + cap; hi = max from to }
