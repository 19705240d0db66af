-- ===== src/Indexer/Reorg.antt =====
-- lib/reorg.js, and the finality sweep of server.js that follows its plan.
pub mod Hashes
pub mod Sweep
pub mod Guarantee
use pdexplorer.Prelude.{
  ℕ, zero, suc, ◌+◌, Bool, true, false, not, ◌&&◌, ◌||◌, Option, none, some, List, [], ◌∷◌, ◌++◌,
  all, ◌==◌, filter_by, if◌then◌else◌,
}
use pdexplorer.Prelude.Int.{ℤ, pos, negsuc, pos_part, ◌+ℤ◌, ◌-ℤ◌, ltb_ℤ, leb_ℤ, min_ℤ, max_ℤ}
use pdexplorer.Prelude.Js.{JsValue, undefined, null, blank, nan, int}
use pdexplorer.Prelude.Text.{Text, text_eq, is_empty, trim, to_lower_case}

-- `num`
abbrev pub num : JsValue → Option ℤ
num (int z) = some z
num _ = none

-- /^0x0+$/
unfoldable pub is_zero_hash : Text → Bool
is_zero_hash (a ∷ b ∷ c ∷ s) = a == b'0' && b == b'x' && all (λ d. d == b'0') (c ∷ s)
is_zero_hash _ = false

abbrev pub clean : Option Text → Text
clean none = []
clean (some s) = to_lower_case (trim s)

unfoldable pub hashes_differ : Option Text → Option Text → Bool
unfolding is_zero_hash trim to_lower_case
hashes_differ stored canonical =
    let a = clean stored in
    let b = clean canonical in
    if is_empty a || is_empty b
    then false
    else if is_zero_hash a || is_zero_hash b
    then false
    else not (text_eq a b)

pub record Plan : Type 0 where
  pub first_run : Bool
  pub adopt : Option ℤ
  pub sweep_from : ℤ
  pub sweep_to : ℤ
  pub tail_from : ℤ
  pub tail_to : ℤ

-- `Math.max(0, num(v) || 0)`, where an absent argument is its default.
abbrev cap_of : JsValue → ℤ → ℤ
cap_of undefined dflt = max_ℤ (pos 0) dflt
cap_of v dflt = elim (num v) [ some z ↦ max_ℤ (pos 0) z | none ↦ pos 0 ]

abbrev tail_end : ℤ → JsValue → JsValue → ℤ
tail_end fin head tail_max = elim (num head) [
  | some best ↦ min_ℤ best (fin +ℤ cap_of tail_max (pos 64))
  | none ↦ pos 0
]

abbrev idle : Plan
idle = record {
  first_run = false;
  adopt = none;
  sweep_from = pos 1;
  sweep_to = pos 0;
  tail_from = pos 1;
  tail_to = pos 0;
}

-- The plan where a finalized height is known.
unfoldable pub plan_from : ℤ → JsValue → JsValue → JsValue → JsValue → Plan
plan_from fin verified head sweep_max tail_max = elim (num verified) [
  | none ↦ record {
    first_run = true;
    adopt = some fin;
    sweep_from = pos 1;
    sweep_to = pos 0;
    tail_from = fin +ℤ pos 1;
    tail_to = tail_end fin head tail_max;
  }
  | some v ↦ record {
    first_run = false;
    adopt = none;
    sweep_from = v +ℤ pos 1;
    sweep_to = min_ℤ fin (v +ℤ cap_of sweep_max (pos 200));
    tail_from = fin +ℤ pos 1;
    tail_to = tail_end fin head tail_max;
  }
]

unfoldable pub plan_reorg_sweep : JsValue → JsValue → JsValue → JsValue → JsValue → Plan
unfolding plan_from
plan_reorg_sweep verified finalized head sweep_max tail_max = elim (num finalized) [
  | none ↦ idle
  | some fin ↦ if ltb_ℤ fin (pos 0) then idle else plan_from fin verified head sweep_max tail_max
]

-- The numbers of `for (n = from; n <= to; n++)`.
unfoldable pub count_up : ℕ → ℤ → List ℤ
count_up zero n = []
count_up (suc k) n = n ∷ count_up k (n +ℤ pos 1)

abbrev pub rounds : ℤ → ℤ → ℕ
rounds from to = pos_part (to +ℤ pos 1 -ℤ from)

unfoldable pub heights_to_verify : Plan → (ℤ → Bool) → List ℤ
unfolding count_up
heights_to_verify plan have =
    filter_by have (count_up (rounds plan.sweep_from plan.sweep_to) plan.sweep_from)
    ++ filter_by (λ n. have n && (ltb_ℤ n plan.sweep_from || ltb_ℤ plan.sweep_to n))
        (count_up (rounds plan.tail_from plan.tail_to) plan.tail_from)

-- How far the loop over the heights has come.
pub record Progress : Type 0 where
  pub verified_up_to : Option ℤ
  pub checked : List ℤ
  pub finished : Bool

abbrev within_sweep : Plan → ℤ → Bool
within_sweep plan n = leb_ℤ plan.sweep_from n && leb_ℤ n plan.sweep_to

-- `completes n` is false where the check of height `n` throws, which ends the loop.
unfoldable pub verify_loop : (ℤ → Bool) → Plan → List ℤ → Option ℤ → List ℤ → Progress
verify_loop completes plan [] up_to checked = record {
  verified_up_to = up_to;
  checked = checked;
  finished = true;
}
verify_loop completes plan (n ∷ ns) up_to checked = elim (completes n) [
  | false ↦ record { verified_up_to = up_to; checked = checked; finished = false }
  | true ↦
      verify_loop completes plan ns (if within_sweep plan n then some n else up_to)
        (checked ++ n ∷ [])
]

-- What one tick sees: whether the node answers, its heads, the stored heights, and which checks end.
pub record Tick : Type 0 where
  pub ready : Bool
  pub finalized : JsValue
  pub head : JsValue
  pub have : ℤ → Bool
  pub completes : ℤ → Bool

pub record SweepState : Type 0 where
  pub verified : JsValue
  pub checked : List ℤ

abbrev stored_value : JsValue → Option ℤ → JsValue
stored_value old none = old
stored_value old (some z) = int z

-- The `finally` block: the watermark moves up to the last height whose check completed.
unfoldable pub settle : Plan → Progress → SweepState → SweepState
settle plan p st =
    let whole = p.finished && leb_ℤ plan.sweep_from plan.sweep_to in
    let up_to = if whole then some plan.sweep_to else p.verified_up_to in
    let moved : JsValue = elim up_to [
      | none ↦ st.verified
      | some u ↦ if leb_ℤ plan.sweep_from u then int u else st.verified
    ] in
    record {
      verified = (if plan.first_run then st.verified else moved);
      checked = st.checked ++ p.checked;
    }

unfoldable pub reorg_sweep : JsValue → JsValue → Tick → SweepState → SweepState
reorg_sweep sweep_max tail_max t st =
    let plan = plan_reorg_sweep st.verified t.finalized t.head sweep_max tail_max in
    let st' =
      if plan.first_run then record st { verified = stored_value st.verified plan.adopt } else st in
    let heights = heights_to_verify plan t.have in
    if not t.ready then st else settle plan (verify_loop t.completes plan heights none []) st'
