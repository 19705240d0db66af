-- ===== src/Indexer/Watermark/Trust.antt =====
-- The watermark over the queue of scan failures: what it promises, and that it promises all it can.
use pdexplorer.Prelude.{
  ℕ, ◌+◌, ◌-◌, ◌≤◌, ◌<◌, ◌≡◌, refl, ◌↔◌, inl, inr, true, Option, none, some, List, String, arith,
  max, Option-cases,
}
use pdexplorer.Prelude.Int.{ℤ, pos, ◌≤ℤ◌}
use pdexplorer.Prelude.Js.{JsValue, undefined, null, int}
use pdexplorer.Indexer.ScanQueue.{Failure, row_at, get_lowest_scan_failure}
use pdexplorer.Indexer.ScanQueue.Lowest.{AtMost, lowest-AtMost, row_at-lowest}
use pdexplorer.Indexer.Watermark.{contiguous_watermark, is_caught_up, read_head_seen, ScanState}

-- What `getLowestScanFailure` hands to JavaScript.
abbrev pub to_js : Option ℕ → JsValue
to_js none = null
to_js (some n) = int (pos n)

abbrev pub watermark : String → List Failure → ℕ → ℕ → ℤ
watermark i table head_seen floor =
    contiguous_watermark (int (pos head_seen)) (to_js (get_lowest_scan_failure i table))
      (int (pos floor))

-- The mark by the lowest failure alone.
watermark-lowest :
    (lowest : Option ℕ) (head_seen floor h : ℕ)
    → 1 ≤ h
    → floor ≤ h
    → h ≤ head_seen
    → (pos h ≤ℤ contiguous_watermark (int (pos head_seen)) (to_js lowest) (int (pos floor)))
      ↔ (¬ AtMost lowest h)
unfolding contiguous_watermark
watermark-lowest lowest head_seen floor h one low high = ground arith

-- Of the claimed span, from the floor and from 1 up to the height reached, a height is at or below
-- the watermark exactly when neither it nor any height below it has a row in the queue of
-- failures, given up or not.
pub watermark-trust :
    (i : String) (table : List Failure) (head_seen floor h : ℕ)
    → 1 ≤ h
    → floor ≤ h
    → h ≤ head_seen
    → (pos h ≤ℤ watermark i table head_seen floor) ↔ ((c : ℕ) → c ≤ h → row_at i c table ≡ none)
watermark-trust i table head_seen floor h one low high = (sound, complete)
  where
    mark :
        (pos h ≤ℤ watermark i table head_seen floor)
        ↔ (¬ AtMost (get_lowest_scan_failure i table) h)
    mark = watermark-lowest (get_lowest_scan_failure i table) head_seen floor h one low high

    weaken : (o : Option ℕ) (c : ℕ) → c ≤ h → AtMost o c → AtMost o h
    weaken none c le m = m
    weaken (some lo) c le m = omega arith

    sound : pos h ≤ℤ watermark i table head_seen floor → (c : ℕ) → c ≤ h → row_at i c table ≡ none
    sound m c le = elim (Option-cases (row_at i c table)) [
      | inl e ↦ e
      | inr (r, e) ↦ absurd (
          mark.0 m
            (weaken (get_lowest_scan_failure i table) c le (lowest-AtMost i c table (λ n. cc))))
    ]

    none_below :
        (o : Option ℕ)
        → get_lowest_scan_failure i table ≡ o
        → ((c : ℕ) → c ≤ h → row_at i c table ≡ none)
        → ¬ AtMost o h
    none_below none e clear m = m
    none_below (some lo) e clear m = row_at-lowest i table e (clear lo m)

    complete :
        ((c : ℕ) → c ≤ h → row_at i c table ≡ none) → pos h ≤ℤ watermark i table head_seen floor
    complete clear = mark.1 (none_below (get_lowest_scan_failure i table) refl clear)

-- The watermark never claims more than has been reached, save the empty span below the floor.
pub watermark-le-head :
    (i : String) (table : List Failure) (head_seen floor : ℕ)
    → watermark i table head_seen floor ≤ℤ pos (max head_seen (floor - 1))
unfolding contiguous_watermark
watermark-le-head i table head_seen floor = ground arith

-- Where the floor is at most one above the height reached, a scanner that reports itself caught up
-- has reached the head, has no row in the queue, and its watermark is the top of the span; and
-- only such a scanner reports so.
pub caught_up_iff :
    (i : String) (table : List Failure) (head_seen head floor : ℕ)
    → floor ≤ head_seen + 1
    → (is_caught_up (int (pos head_seen)) (int (pos head)) (to_js (get_lowest_scan_failure i table))
        ≡ true)
      ↔ ((head ≤ head_seen)
          × (get_lowest_scan_failure i table ≡ none)
          × (watermark i table head_seen floor ≡ pos head_seen))
unfolding is_caught_up contiguous_watermark
caught_up_iff i table head_seen head floor fits = ground arith

-- A state with a positive `headSeen` resumes there; one written before the field existed resumes at
-- its `latestScannedBlock`; and no state resumes below zero.
pub read_head_seen_lem :
    (n : ℕ) (old : JsValue)
    → 0 < n
    → (read_head_seen (some (record { head_seen = int (pos n); latest_scanned_block = old }))
        ≡ pos n)
      × (read_head_seen
            (some (record { head_seen = undefined; latest_scanned_block = int (pos n) }))
          ≡ pos n)
      × ((s : Option ScanState) → pos 0 ≤ℤ read_head_seen s)
unfolding read_head_seen
read_head_seen_lem n old h = (ground arith, ground arith, λ s. ground arith)
