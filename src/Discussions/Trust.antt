-- ===== src/Discussions/Trust.antt =====
-- When a read of the chain is current enough to close a thread: the checks of
-- lib/discussion-threads.js. Heights and counts are JavaScript values.
use mathlib.Core.List.{foldl}
use pdexplorer.Prelude.{Option, none, some, Bool, true, false, List, if◌then◌else◌}
use pdexplorer.Prelude.Int.{ℤ, pos, negsuc, ltb_ℤ, leb_ℤ, max_ℤ}
use pdexplorer.Prelude.Js.{JsValue, undefined, null, blank, nan, int, number}

-- `finiteBlock`
unfoldable pub finite_block : JsValue → Option ℤ
finite_block undefined = none
finite_block null = none
finite_block blank = none
finite_block nan = none
finite_block (int z) = some z

-- `finiteBlock(v) || 0`
abbrev pub block_or_0 : Option ℤ → ℤ
block_or_0 none = pos 0
block_or_0 (some z) = z

unfoldable pub next_high_water : JsValue → JsValue → ℤ
unfolding finite_block
next_high_water prev current = elim (finite_block current) [
  | none ↦ block_or_0 (finite_block prev)
  | some c ↦ max_ℤ (block_or_0 (finite_block prev)) c
]

-- What a check says, with the figures of its reason.
pub data Trust : Type 0 where
  trusted no_block_number list_incomplete : Trust
  behind : ℤ → ℤ → Trust
  uncounted : JsValue → ℤ → Trust

abbrev pub is_trusted : Trust → Bool
is_trusted trusted = true
is_trusted no_block_number = false
is_trusted list_incomplete = false
is_trusted (behind c hw) = false
is_trusted (uncounted count highest) = false

unfoldable pub block_check : JsValue → JsValue → Trust
unfolding finite_block
block_check current high_water = elim (finite_block current) [
  | none ↦ no_block_number
  | some c ↦
      let hw = block_or_0 (finite_block high_water) in if ltb_ℤ c hw then behind c hw else trusted
]

-- The highest reference key that is a number, or -1.
unfoldable pub highest_key : List JsValue → ℤ
highest_key keys = foldl (λ m k. elim (number k) [ none ↦ m | some x ↦ max_ℤ m x ]) (negsuc 0) keys

unfoldable pub check_counted : JsValue → ℤ → Trust → Trust
check_counted count highest b = elim (number count) [
  | none ↦ uncounted count highest
  | some n ↦ if leb_ℤ n highest then uncounted count highest else b
]

-- Without the counter only the height is checked.
abbrev pub has_count : JsValue → Bool
has_count undefined = false
has_count null = false
has_count blank = true
has_count nan = true
has_count (int z) = true

unfoldable pub count_check : JsValue → JsValue → JsValue → List JsValue → Trust
unfolding block_check highest_key check_counted
count_check count current high_water known_ref_keys =
    let b = block_check current high_water in
    if is_trusted b
    then (if has_count count then check_counted count (highest_key known_ref_keys) b else b)
    else b

unfoldable pub proposal_read_trusted : JsValue → JsValue → JsValue → List JsValue → Trust
unfolding count_check
proposal_read_trusted public_prop_count current high_water keys =
    count_check public_prop_count current high_water keys

unfoldable pub referendum_read_trusted : JsValue → JsValue → JsValue → List JsValue → Trust
unfolding count_check
referendum_read_trusted referendum_count current high_water keys =
    count_check referendum_count current high_water keys

unfoldable pub external_read_trusted : JsValue → JsValue → Trust
unfolding block_check
external_read_trusted current high_water = block_check current high_water

unfoldable pub motion_read_trusted : Bool → JsValue → JsValue → Trust
unfolding block_check
motion_read_trusted list_trusted current high_water =
    if list_trusted then block_check current high_water else list_incomplete
