-- ===== src/Rewards/Attribution.antt =====
-- lib/reward-attribution.js: which validator paid a reward, where one batch paid several. The reference
-- of a reward is a number that no other reward of the extrinsic has, so that the map is the list of what
-- was put in it.
pub mod Items
use pdexplorer.Prelude.{
  ℕ, suc, Bool, true, false, not, ◌&&◌, ◌||◌, Option, none, some, List, [], ◌∷◌, String, str_eq,
  get_elem?, all, length, ◌==◌, if◌then◌else◌,
}

unfoldable pub is_batch_delimiter : String → String → Bool
is_batch_delimiter section method =
    str_eq section "utility" && (str_eq method "ItemCompleted" || str_eq method "ItemFailed")

pub record InnerCall : Type 0 where
  pub call_section : String
  pub call_method : String

unfoldable pub is_direct_payout_call : InnerCall → Bool
is_direct_payout_call c =
    str_eq c.call_section "staking"
    && (str_eq c.call_method "payoutStakers" || str_eq c.call_method "payoutStakersByPage")

unfoldable pub is_attributable_batch : List InnerCall → Bool
is_attributable_batch calls = not (length calls == 0) && all is_direct_payout_call calls

-- An item of the batch: the era and the validator of a payout, each if it has one.
pub record BatchCall : Type 0 where
  pub paid_era : Option ℕ
  pub paid_by : Option String

pub data SequenceEntry : Type 0 where
  delimiter : SequenceEntry
  reward_event : ℕ → SequenceEntry
  other_entry : SequenceEntry

pub record Attributed : Type 0 where
  pub ref : ℕ
  pub payout_of : BatchCall

-- A missing item, and one that is no payout, have neither.
abbrev pub call_or : Option (Option BatchCall) → BatchCall
call_or none = record { paid_era = none; paid_by = none }
call_or (some none) = record { paid_era = none; paid_by = none }
call_or (some (some c)) = c

unfoldable pub attribute_from : List (Option BatchCall) → ℕ → List SequenceEntry → List Attributed
attribute_from calls item [] = []
attribute_from calls item (delimiter ∷ es) = attribute_from calls (suc item) es
attribute_from calls item (reward_event r ∷ es) =
    record { ref = r; payout_of = call_or (get_elem? calls item) } ∷ attribute_from calls item es
attribute_from calls item (other_entry ∷ es) = attribute_from calls item es

unfoldable pub attribute_batch_rewards :
    List (Option BatchCall) → List SequenceEntry → List Attributed
attribute_batch_rewards calls sequence = attribute_from calls 0 sequence
