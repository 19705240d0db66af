-- ===== src/Rewards/Dedup.antt =====
-- lib/reward-dedup.js: the unclaimed rewards that the claimed rows already account for. Rows are not
-- null, and amounts are whole numbers.
pub mod Reconcile
use pdexplorer.Prelude.{
  ℕ, suc, ◌+◌, Bool, true, false, not, ◌&&◌, ◌||◌, Option, none, some, List, [], ◌∷◌, ◌++◌, any,
  length, map, filter_by, ◌==◌, if◌then◌else◌,
}
use pdexplorer.Prelude.Int.{ℤ, pos, negsuc, ◌+ℤ◌, leb_ℤ}
use pdexplorer.Prelude.Js.{JsValue, undefined, null, number}
use pdexplorer.Prelude.Text.{Text, text_eq, is_empty}

-- A validator that is null stands as the empty text: the code tests it for truth only.
pub record Reward : Type 0 where
  pub era : JsValue
  pub validator : Text
  pub amount : JsValue

-- `row.era == null` gives none, and so does an era that is not finite.
abbrev pub era_of : JsValue → Option ℤ
era_of undefined = none
era_of null = none
era_of v = number v

abbrev pub eq_ℤ : ℤ → ℤ → Bool
eq_ℤ a b = leb_ℤ a b && leb_ℤ b a

-- The key `<era>|<validator>`; the text of an integer has no bar, so the text is the pair.
pub record RewardKey : Type 0 where
  pub key_era : ℤ
  pub key_validator : Text

abbrev pub claimed_reward_key : ℤ → Text → RewardKey
claimed_reward_key era validator = record { key_era = era; key_validator = validator }

abbrev pub key_eq : RewardKey → RewardKey → Bool
key_eq a b = eq_ℤ a.key_era b.key_era && text_eq a.key_validator b.key_validator

pub record ClaimedIndex : Type 0 where
  pub exact : List RewardKey
  pub unattributed_eras : List ℤ

abbrev pub add_claimed : Option ℤ → Text → ClaimedIndex → ClaimedIndex
add_claimed none validator index = index
add_claimed (some era) validator index =
    if is_empty validator
    then record index { unattributed_eras = era ∷ index.unattributed_eras }
    else record index { exact = claimed_reward_key era validator ∷ index.exact }

-- The order in which a set is filled does not matter.
unfoldable pub build_claimed_index : List Reward → ClaimedIndex
build_claimed_index [] = record { exact = []; unattributed_eras = [] }
build_claimed_index (row ∷ rows) =
    add_claimed (era_of row.era) row.validator (build_claimed_index rows)

abbrev pub is_claimed : Option ℤ → Text → ClaimedIndex → Bool
is_claimed none validator index = false
is_claimed (some era) validator index =
    any (eq_ℤ era) index.unattributed_eras
    || any (key_eq (claimed_reward_key era validator)) index.exact

pub record Filtered : Type 0 where
  pub kept : List Reward
  pub suppressed : List Reward

unfoldable pub filter_unclaimed : List Reward → ClaimedIndex → Filtered
filter_unclaimed [] index = record { kept = []; suppressed = [] }
filter_unclaimed (row ∷ rows) index =
    let rest = filter_unclaimed rows index in
    if is_claimed (era_of row.era) row.validator index
    then record rest { suppressed = row ∷ rest.suppressed }
    else record rest { kept = row ∷ rest.kept }

-- `Number(r.amount) || 0`
abbrev pub amount_of : Option ℤ → ℤ
amount_of none = pos 0
amount_of (some z) = z

unfoldable pub sum_amounts : List Reward → ℤ
sum_amounts [] = pos 0
sum_amounts (r ∷ rs) = amount_of (number r.amount) +ℤ sum_amounts rs

pub record RewardSummary : Type 0 where
  pub unclaimed : List Reward
  pub suppressed_rows : List Reward
  pub claimed_total : ℤ
  pub claimed_count : ℕ
  pub unclaimed_total : ℤ
  pub unclaimed_count : ℕ
  pub total_amount : ℤ
  pub reconciled_count : ℕ

-- The summary without `eraCount`.
unfoldable pub summarize_rewards : List Reward → List Reward → RewardSummary
summarize_rewards claimed unclaimed_rows =
    let filtered = filter_unclaimed unclaimed_rows (build_claimed_index claimed) in
    record {
      unclaimed = filtered.kept;
      suppressed_rows = filtered.suppressed;
      claimed_total = sum_amounts claimed;
      claimed_count = length claimed;
      unclaimed_total = sum_amounts filtered.kept;
      unclaimed_count = length filtered.kept;
      total_amount = sum_amounts claimed +ℤ sum_amounts filtered.kept;
      reconciled_count = length filtered.suppressed;
    }
