-- ===== src/Indexer/Watermark.antt =====
-- lib/watermark.js: where the forward pass resumes, and up to where the index can be trusted.
pub mod Trust
use mathlib.Core.Option
use pdexplorer.Prelude.{Bool, true, false, Option, none, some, if◌then◌else◌}
use pdexplorer.Prelude.Int.{ℤ, pos, ◌-ℤ◌, ltb_ℤ, min_ℤ}
use pdexplorer.Prelude.Js.{JsValue, undefined, null, number}

unfoldable pub numeric : JsValue → ℤ → ℤ
numeric v fallback = elim (number v) [ some z ↦ z | none ↦ fallback ]

-- A lowest outstanding failure that is there and is a finite number.
unfoldable pub outstanding : JsValue → Option ℤ
outstanding undefined = none
outstanding null = none
outstanding v = number v

unfoldable pub contiguous_watermark : JsValue → JsValue → JsValue → ℤ
unfolding numeric outstanding
contiguous_watermark head_seen lowest floor =
    let top = numeric head_seen (pos 0) in
    let bottom = numeric floor (pos 0) in
    let mark : ℤ = elim (outstanding lowest) [
      | none ↦ top
      | some fail ↦ min_ℤ top (fail -ℤ pos 1)
    ] in
    let empty = if ltb_ℤ (pos 0) bottom then bottom -ℤ pos 1 else pos 0 in
    let raised = if ltb_ℤ mark empty then empty else mark in
    if ltb_ℤ raised (pos 0) then pos 0 else raised

unfoldable pub is_caught_up : JsValue → JsValue → JsValue → Bool
unfolding numeric outstanding
is_caught_up head_seen head lowest =
    if ltb_ℤ (numeric head_seen (pos 0)) (numeric head (pos 0))
    then false
    else elim (outstanding lowest) [ none ↦ true | some _ ↦ false ]

-- The fields of a persisted scan state that this module reads.
pub record ScanState : Type 0 where
  pub head_seen : JsValue
  pub latest_scanned_block : JsValue

abbrev positive : JsValue → Option ℤ
positive v = elim (number v) [ none ↦ none | some z ↦ if ltb_ℤ (pos 0) z then some z else none ]

unfoldable pub read_head_seen : Option ScanState → ℤ
read_head_seen none = pos 0
read_head_seen (some s) = elim (positive s.head_seen) [
  | some z ↦ z
  | none ↦ elim (positive s.latest_scanned_block) [ some z ↦ z | none ↦ pos 0 ]
]
