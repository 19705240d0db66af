-- ===== src/Indexer/BlockGaps.antt =====
-- The holes of the table `blocks`: getBlockGaps and getEdgeGaps of db.js, and the sliced scan of
-- server.js. The table is the list of its heights in ascending order, each once, as its primary key
-- keeps it. The times and the count of the slices, which are only logged, are left out.
pub mod Snap
pub mod Window
pub mod Falling
pub mod Reach
pub mod Slices
pub mod Edges
pub mod Missing
use pdexplorer.Prelude.{
  ℕ, zero, suc, ◌+◌, ◌-◌, max, Bool, ◌&&◌, Option, none, some, List, [], ◌∷◌, ◌++◌, ltb, leb, ◌==◌,
  length, take, filter_by, any, if◌then◌else◌,
}
use pdexplorer.Prelude.Sort.{sort_by}

pub record GapRow : Type 0 where
  pub gap_start : ℕ
  pub gap_end : ℕ
  pub gap_size : ℕ

abbrev pub gap_row : ℕ → ℕ → GapRow
gap_row number next_num = record {
  gap_start = number + 1;
  gap_end = next_num - 1;
  gap_size = next_num - number - 1;
}

-- The rows of the inner query, LEAD(number) being the next height, less those without a hole.
abbrev pub holes_from : ℕ → List ℕ → List GapRow
holes_from number [] = []
holes_from number (next_num ∷ r) =
    let rest = holes_from next_num r in
    if ltb 1 (next_num - number) then gap_row number next_num ∷ rest else rest

abbrev pub holes : List ℕ → List GapRow
holes [] = []
holes (number ∷ r) = holes_from number r

-- MAX(number) and MIN(number), none for null
abbrev pub max_stored : List ℕ → Option ℕ
max_stored [] = none
max_stored (n ∷ r) = elim (max_stored r) [ none ↦ some n | some m ↦ some (max n m) ]

abbrev pub min_stored : List ℕ → Option ℕ
min_stored [] = none
min_stored (n ∷ r) = elim (min_stored r) [
  | none ↦ some n
  | some m ↦ some (if ltb n m then n else m)
]

abbrev pub or_bound : Option ℕ → ℕ → ℕ
or_bound none n = n
or_bound (some m) n = m

abbrev pub snap_since : List ℕ → ℕ → ℕ
snap_since blocks since = or_bound (max_stored (filter_by (λ n. ltb n since) blocks)) since

abbrev pub snap_until : List ℕ → ℕ → ℕ
snap_until blocks until = or_bound (min_stored (filter_by (λ n. ltb until n) blocks)) until

-- The WHERE clause, whose bounds are optional.
abbrev pub from_since : List ℕ → Option ℕ → List ℕ
from_since blocks none = blocks
from_since blocks (some since) = filter_by (λ n. leb (snap_since blocks since) n) blocks

abbrev pub up_to : List ℕ → List ℕ → Option ℕ → List ℕ
up_to blocks rows none = rows
up_to blocks rows (some until) = filter_by (λ n. leb n (snap_until blocks until)) rows

-- ORDER BY number DESC, of rows that come in ascending order
abbrev pub descending : List GapRow → List GapRow
descending [] = []
descending (g ∷ r) = descending r ++ (g ∷ [])

unfoldable pub get_block_gaps : List ℕ → ℕ → Option ℕ → Option ℕ → List GapRow
get_block_gaps blocks limit since until =
    take limit (descending (holes (up_to blocks (from_since blocks since) until)))

-- `seen.has(g.gapStart)`: the set holds the starts of the rows in `out`.
abbrev pub is_seen : List GapRow → GapRow → Bool
is_seen out g = any (λ (h : GapRow). h.gap_start == g.gap_start) out

-- The inner loop.
abbrev pub add_part : ℕ → List GapRow → List GapRow → List GapRow
add_part limit out [] = out
add_part limit out (g ∷ part) =
    let skipped = add_part limit out part in
    let rest = add_part limit (out ++ (g ∷ [])) part in
    if is_seen out g
    then skipped
    else (if leb limit (length (out ++ (g ∷ []))) then out ++ (g ∷ []) else rest)

-- The outer loop, on fuel. `top` is `hi + 1`, so that it stays at 0 where `hi` is -1.
abbrev pub scan_loop : List ℕ → ℕ → ℕ → ℕ → ℕ → ℕ → List GapRow → List GapRow
scan_loop blocks limit since slice zero top out = out
scan_loop blocks limit since slice (suc fuel) top out =
    let lo = max since (top - slice) in
    let next =
      scan_loop blocks limit since slice fuel lo
        (add_part limit out (get_block_gaps blocks limit (some lo) (some (top - 1)))) in
    if ltb since top && ltb (length out) limit then next else out

abbrev pub starts_later : GapRow → GapRow → Bool
starts_later g h = leb h.gap_start g.gap_start

unfoldable pub scan_gaps_yielding : List ℕ → ℕ → ℕ → ℕ → ℕ → List GapRow
scan_gaps_yielding blocks limit since until slice =
    sort_by starts_later (scan_loop blocks limit since slice (suc until) (suc until) [])

-- A prefix and a suffix row, for the bounds that the indexer claims.
abbrev pub prefix_gap : Option ℕ → ℕ → List GapRow
prefix_gap none lo = []
prefix_gap (some oldest) lo =
    if ltb 0 oldest && ltb oldest lo
    then record { gap_start = oldest; gap_end = lo - 1; gap_size = lo - oldest } ∷ []
    else []

abbrev pub suffix_gap : Option ℕ → ℕ → List GapRow
suffix_gap none hi = []
suffix_gap (some latest) hi =
    if ltb hi latest
    then record { gap_start = hi + 1; gap_end = latest; gap_size = latest - hi } ∷ []
    else []

unfoldable pub get_edge_gaps : List ℕ → Option ℕ → Option ℕ → List GapRow
get_edge_gaps blocks oldest_claimed latest_claimed = elim (min_stored blocks) [
  | none ↦ []
  | some lo ↦
      prefix_gap oldest_claimed lo ++ suffix_gap latest_claimed (or_bound (max_stored blocks) 0)
]
