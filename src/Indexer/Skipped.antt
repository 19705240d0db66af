-- ===== src/Indexer/Skipped.antt =====
-- server.js, `recordSkippedRange` and `drainSkipTail`: a skipped span goes to the retry queue as far
-- as the cap allows, and the rest to the ledger, from where each tick drains a bounded number.
pub mod Owed
pub mod Drained
use pdexplorer.Prelude.{
  ℕ, zero, suc, ◌+◌, ◌-◌, Bool, true, false, Option, none, some, List, [], ◌∷◌, map, String, str_eq,
  ltb, length, min, max, if◌then◌else◌,
}
use pdexplorer.Prelude.Int.{pos}
use pdexplorer.Prelude.Js.{int}
use pdexplorer.Indexer.SkipTail.{
  Range, RawRange, Taken, to_raw, normalize_tail, add_tail, take_from_tail, range_from,
}
use pdexplorer.Indexer.ScanQueue.{Failure, record_scan_failure, queue_one_if_absent}

-- The table and the ledgers, which are kept under `skip:tail:<indexer>`; no ledger reads as [].
pub record SkipState : Type 0 where
  pub failures : List Failure
  pub tails : String → List RawRange

pub set_tail : String → List Range → (String → List RawRange) → String → List RawRange
set_tail i ranges tails j = if str_eq j i then map to_raw ranges else tails j

pub record_all : ℕ → String → Option (List ℕ) → List ℕ → List Failure → List Failure
record_all now i reason [] table = table
record_all now i reason (n ∷ ns) table =
    record_all now i reason ns (record_scan_failure now i n reason table)

-- The state, and the number of heights that were recorded.
unfoldable pub record_skipped_range :
    ℕ → ℕ → String → ℕ → ℕ → Option (List ℕ) → SkipState → SkipState × ℕ
unfolding record_all set_tail range_from
record_skipped_range skip_record_max now i from to reason st =
    let lo = min from to in
    let hi = max from to in
    let total = hi + 1 - lo in
    let cap = min total skip_record_max in
    let failures = record_all now i reason (range_from lo cap) st.failures in
    let rest : Range = record { lo = lo + cap; hi = hi } in
    let tails =
      if ltb cap total
      then set_tail i (add_tail (st.tails i) (to_raw rest)) st.tails
      else st.tails in
    (record { failures = failures; tails = tails }, cap)

pub queue_all : ℕ → String → Option (List ℕ) → List ℕ → List Failure → List Failure
queue_all now i reason [] table = table
queue_all now i reason (n ∷ ns) table =
    queue_all now i reason ns (queue_one_if_absent now i n reason table).0

-- The state, and the number of heights that were drained.
unfoldable pub drain_skip_tail : ℕ → ℕ → String → Option (List ℕ) → SkipState → SkipState × ℕ
unfolding queue_all set_tail
drain_skip_tail drain_max now i reason st =
    let ranges = normalize_tail (st.tails i) in
    let taken = take_from_tail (map to_raw ranges) (int (pos drain_max)) in
    elim ranges [
      | [] ↦ (st, 0)
      | _ ∷ _ ↦ (
        record {
          failures = queue_all now i reason taken.heights st.failures;
          tails = set_tail i taken.rest st.tails;
        },
        length taken.heights,
      )
    ]
