-- ===== src/Indexer/SkipTail.antt =====
-- lib/skip-tail.js: the ledger of heights that a scanner skipped and could not afford to record.
pub mod Coverage
pub mod Bound
pub mod Take
use pdexplorer.Prelude.{
  ℕ, zero, suc, ◌+◌, ◌-◌, max, min, Bool, true, false, ◌&&◌, Option, none, some, List, [], ◌∷◌,
  ◌++◌, map, ltb, leb, ◌==◌, length, if◌then◌else◌,
}
use pdexplorer.Prelude.Int.{ℤ, pos, negsuc}
use pdexplorer.Prelude.Js.{JsValue, int, number}
use pdexplorer.Prelude.Sort.{sort_by}

-- An inclusive range of heights.
pub record Range : Type 0 where
  pub lo : ℕ
  pub hi : ℕ

-- A range as it comes from storage or from a caller.
pub record RawRange : Type 0 where
  pub raw_lo : JsValue
  pub raw_hi : JsValue

abbrev pub to_raw : Range → RawRange
to_raw r = record { raw_lo = int (pos r.lo); raw_hi = int (pos r.hi) }

abbrev pub max_tail_ranges : ℕ
max_tail_ranges = 64

-- A bound that is finite and not negative.
abbrev height : JsValue → Option ℕ
height v = elim (number v) [ some z ↦ (elim z [ pos n ↦ some n | negsuc _ ↦ none ]) | none ↦ none ]

abbrev norm : ℕ → ℕ → Range
norm a b = record { lo = min a b; hi = max a b }

-- `valid` and `norm` in one: `none` is an entry that the ledger drops.
unfoldable pub read_range : RawRange → Option Range
read_range r = elim (height r.raw_lo) [
  | some a ↦ (elim (height r.raw_hi) [ some b ↦ some (norm a b) | none ↦ none ])
  | none ↦ none
]

unfoldable pub read_ranges : List RawRange → List Range
read_ranges [] = []
read_ranges (r ∷ rs) = elim (read_range r) [ some x ↦ x ∷ read_ranges rs | none ↦ read_ranges rs ]

-- `last` is the range that the loop has pushed last.
unfoldable pub merge_into : Range → List Range → List Range
merge_into last [] = last ∷ []
merge_into last (r ∷ rs) = elim (leb r.lo (last.hi + 1)) [
  | true ↦ merge_into (record { lo = last.lo; hi = max last.hi r.hi }) rs
  | false ↦ last ∷ merge_into r rs
]

abbrev lo_leb : Range → Range → Bool
lo_leb a b = leb a.lo b.lo

unfoldable pub coalesce : List Range → List Range
unfolding merge_into
coalesce [] = []
coalesce (r ∷ rs) = merge_into r rs

unfoldable pub normalize_ranges : List Range → List Range
unfolding coalesce
normalize_ranges rs = coalesce (sort_by lo_leb rs)

unfoldable pub normalize_tail : List RawRange → List Range
normalize_tail raw = normalize_ranges (read_ranges raw)

-- The index whose range is followed by the smallest gap; `best` is none for Infinity. The ledger is
-- sorted and disjoint here, so the difference is not negative.
pub closest_from : ℕ → ℕ → Option ℕ → List Range → ℕ
closest_from i best_at best [] = best_at
closest_from i best_at best (a ∷ []) = best_at
closest_from i best_at best (a ∷ b ∷ rs) =
    let gap = b.lo - a.hi in
    let better : Bool = elim best [ none ↦ true | some g ↦ ltb gap g ] in
    closest_from (suc i) (if better then i else best_at) (if better then some gap else best)
      (b ∷ rs)

-- The two ranges at `i` become one.
pub merge_at : ℕ → List Range → List Range
merge_at zero (a ∷ b ∷ rs) = record { lo = a.lo; hi = max a.hi b.hi } ∷ rs
merge_at (suc i) (a ∷ rs) = a ∷ merge_at i rs
merge_at _ rs = rs

-- The loop of `addTail`, on fuel.
pub bound_tail : ℕ → List Range → List Range
bound_tail zero out = out
bound_tail (suc fuel) out = elim (ltb max_tail_ranges (length out)) [
  | true ↦ bound_tail fuel (merge_at (closest_from 0 0 none out) out)
  | false ↦ out
]

unfoldable pub add_tail : List RawRange → RawRange → List Range
add_tail ranges span = elim (read_range span) [
  | none ↦ normalize_tail ranges
  | some s ↦
      let out = normalize_ranges (read_ranges ranges ++ s ∷ []) in bound_tail (length out) out
]

-- `k` heights from `lo` upwards.
unfoldable pub range_from : ℕ → ℕ → List ℕ
range_from lo zero = []
range_from lo (suc k) = lo ∷ range_from (lo + 1) k

pub record Taken : Type 0 where
  pub heights : List ℕ
  pub rest : List Range

-- One round of the loop of `takeFromTail`; a range of the ledger has `lo ≤ hi`.
pub take_step : ℕ → Taken → Range → Taken
unfolding range_from
take_step n t r =
    if leb n (length t.heights)
    then record t { rest = t.rest ++ r ∷ [] }
    else (let room = n - length t.heights in
        let span = r.hi + 1 - r.lo in
        if leb span room then record t { heights = t.heights ++ range_from r.lo span } else record {
          heights = t.heights ++ range_from r.lo room;
          rest = t.rest ++ record { lo = r.lo + room; hi = r.hi } ∷ [];
        })

pub take_loop : ℕ → Taken → List Range → Taken
unfolding take_step
take_loop n t [] = t
take_loop n t (r ∷ rs) = take_loop n (take_step n t r) rs

abbrev none_taken : List Range → Taken
none_taken rs = record { heights = []; rest = rs }

-- A limit that is not a positive number takes nothing.
unfoldable pub take_from_tail : List RawRange → JsValue → Taken
take_from_tail ranges limit =
    let list = normalize_tail ranges in
    elim (number limit) [
      | none ↦ none_taken list
      | some z ↦ (elim z [
        | negsuc _ ↦ none_taken list
        | pos n ↦ if n == 0 then none_taken list else take_loop n (none_taken []) list
      ])
    ]

unfoldable pub size_of : List Range → ℕ
size_of [] = 0
size_of (r ∷ rs) = (r.hi + 1 - r.lo) + size_of rs

unfoldable pub tail_size : List RawRange → ℕ
tail_size ranges = size_of (normalize_tail ranges)
