-- ===== src/Indexer/ScanQueue/Lowest.antt =====
-- `getLowestScanFailure` and `countScanFailures` of db.js.
use pdexplorer.Prelude.{
  ℕ, ◌+◌, ◌≤◌, ◌≡◌, refl, ◌≢◌, inl, inr, Option, none, some, List, [], ◌∷◌, String, str_eq, ltb,
  leb, arith, filter_by, length, Option-cases,
}
use pdexplorer.Indexer.ScanQueue.{Failure, row_at, get_lowest_scan_failure, count_scan_failures}

-- A lowest height is there, and is at most `c`.
abbrev pub AtMost : Option ℕ → ℕ → Type 0
AtMost none c = ⊥
AtMost (some lo) c = lo ≤ c

-- The lowest height is at or below every height that has a row.
pub lowest-AtMost :
    (i : String) (c : ℕ) (table : List Failure)
    → row_at i c table ≢ none
    → AtMost (get_lowest_scan_failure i table) c
unfolding row_at get_lowest_scan_failure
lowest-AtMost i c [] h = h refl
lowest-AtMost i c (x ∷ xs) h = ground (arith, lowest-AtMost i c xs)

-- The lowest height has a row.
pub row_at-lowest :
    (i : String) (table : List Failure) {lo : ℕ}
    → get_lowest_scan_failure i table ≡ some lo
    → row_at i lo table ≢ none
unfolding row_at get_lowest_scan_failure
row_at-lowest i [] h = cc
row_at-lowest i (x ∷ xs) {lo} h = elim (Option-cases (get_lowest_scan_failure i xs)) [
  | inl e ↦ ground arith
  | inr (m, e) ↦ ground (arith, row_at-lowest i xs {lo = m} e)
]

-- Every row of an indexer is counted once, as retrying or as permanent.
pub count-total :
    (i : String) (max_attempts : ℕ) (table : List Failure)
    → (count_scan_failures i max_attempts table).retrying
        + (count_scan_failures i max_attempts table).permanent
      ≡ (count_scan_failures i max_attempts table).total
unfolding count_scan_failures
count-total i max_attempts table = split (filter_by (λ (r : Failure). str_eq r.indexer i) table)
  where
    split :
        (rows : List Failure)
        → length (filter_by (λ (r : Failure). ltb r.attempts max_attempts) rows)
            + length (filter_by (λ (r : Failure). leb max_attempts r.attempts) rows)
          ≡ length rows
    split [] = omega arith
    split (x ∷ xs) = ground (arith, split xs)
