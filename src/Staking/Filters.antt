-- ===== src/Staking/Filters.antt =====
-- lib/stake-filters.js: the filters of the stake picker, how they are kept, and what they let through.
-- Percentages, amounts and every other number that the state holds are in units of 10^-9.
pub mod Pass
pub mod Counts
pub mod Order
pub mod Storage
use pdexplorer.Prelude.{
  ℕ, ◌+◌, ◌-◌, ◌*◌, ◌^◌, ◌≤◌, Bool, true, false, not, ◌&&◌, ◌||◌, Option, none, some, List, [], ◌∷◌,
  String, str_eq, ltb, leb, ◌==◌, length, filter_by, any, all, if◌then◌else◌,
}
use pdexplorer.Prelude.Int.{ℤ, pos, negsuc, leb_ℤ}
use pdexplorer.Prelude.Text.{Text, is_empty, trim, to_lower_case, includes}

abbrev pub unit : ℕ
unit = 10 ^ 9

abbrev pub slash_lookback_eras : ℕ
slash_lookback_eras = 84

abbrev pub exposure_page_size : ℕ
exposure_page_size = 256

pub data Status : Type 0 where
  active waiting all_statuses : Status

pub data Identity : Type 0 where
  any_identity has verified : Identity

pub data Reliability : Type 0 where
  unset no_miss from_90 from_100 : Reliability

pub data AprWindow : Type 0 where
  eras_7 eras_28 eras_84 : AprWindow

pub data Sort : Type 0 where
  apr commission total_stake self_stake reliability name : Sort

pub record Filters : Type 0 where
  pub status : Status
  pub max_commission : ℕ
  pub no_recent_raise : Bool
  pub identity : Identity
  pub not_blocked : Bool
  pub reliable : Reliability
  pub single_page : Bool
  pub min_self_stake : ℕ
  pub no_slash : Bool
  pub spread : Bool
  pub apr_window : AprWindow
  pub sort : Sort

unfoldable pub default_filters : Filters
default_filters = record {
  status = active;
  max_commission = 99 * unit;
  no_recent_raise = false;
  identity = any_identity;
  not_blocked = true;
  reliable = unset;
  single_page = false;
  min_self_stake = 0;
  no_slash = true;
  spread = false;
  apr_window = eras_28;
  sort = apr;
}

unfoldable pub recommended_preset : Filters
recommended_preset = record {
  status = active;
  max_commission = 10 * unit;
  no_recent_raise = true;
  identity = has;
  not_blocked = true;
  reliable = from_90;
  single_page = true;
  min_self_stake = 0;
  no_slash = true;
  spread = true;
  apr_window = eras_28;
  sort = apr;
}

-- A value of an object that was read from storage. `number none` is NaN or an infinity. A list or an
-- object in the place of a value is left out.
pub data Raw : Type 0 where
  undefined null : Raw
  bool : Bool → Raw
  text : String → Raw
  number : Option ℤ → Raw

pub record RawFilters : Type 0 where
  pub raw_status : Raw
  pub raw_max_commission : Raw
  pub raw_no_recent_raise : Raw
  pub raw_identity : Raw
  pub raw_not_blocked : Raw
  pub raw_reliability : Raw
  pub raw_single_page : Raw
  pub raw_min_self_stake : Raw
  pub raw_no_slash : Raw
  pub raw_spread : Raw
  pub raw_apr_window : Raw
  pub raw_sort : Raw

abbrev pub bool_or : Raw → Bool → Bool
bool_or (bool b) d = b
bool_or undefined d = d
bool_or null d = d
bool_or (text t) d = d
bool_or (number n) d = d

unfoldable pub status_or : Raw → Status → Status
status_or (text t) d =
    if str_eq t "active"
    then active
    else if str_eq t "waiting"
    then waiting
    else if str_eq t "all"
    then all_statuses
    else d
status_or undefined d = d
status_or null d = d
status_or (bool b) d = d
status_or (number n) d = d

unfoldable pub identity_or : Raw → Identity → Identity
identity_or (text t) d =
    if str_eq t "any"
    then any_identity
    else if str_eq t "has"
    then has
    else if str_eq t "verified"
    then verified
    else d
identity_or undefined d = d
identity_or null d = d
identity_or (bool b) d = d
identity_or (number n) d = d

abbrev pub is_number : ℕ → ℤ → Bool
is_number n (pos m) = m == n * unit
is_number n (negsuc m) = false

-- `String(v ?? '')` is in the set of the texts of the choices.
unfoldable pub reliability_or : Raw → Reliability → Reliability
reliability_or undefined d = unset
reliability_or null d = unset
reliability_or (text t) d =
    if str_eq t ""
    then unset
    else if str_eq t "nomiss"
    then no_miss
    else if str_eq t "90"
    then from_90
    else if str_eq t "100"
    then from_100
    else d
reliability_or (number none) d = d
reliability_or (number (some z)) d =
    if is_number 90 z then from_90 else if is_number 100 z then from_100 else d
reliability_or (bool b) d = d

unfoldable pub sort_or : Raw → Sort → Sort
sort_or (text t) d =
    if str_eq t "apr"
    then apr
    else if str_eq t "commission"
    then commission
    else if str_eq t "totalStake"
    then total_stake
    else if str_eq t "selfStake"
    then self_stake
    else if str_eq t "reliability"
    then reliability
    else if str_eq t "name"
    then name
    else d
sort_or undefined d = d
sort_or null d = d
sort_or (bool b) d = d
sort_or (number n) d = d

-- `num(v, lo, hi, dflt)` with a `lo` of 0.
abbrev pub clamp : ℕ → ℤ → ℕ
clamp hi (pos m) = if leb hi m then hi else m
clamp hi (negsuc m) = 0

abbrev pub clamp_or : Option ℤ → ℕ → ℕ → ℕ
clamp_or none hi d = d
clamp_or (some z) hi d = clamp hi z

abbrev pub window_of : Option ℤ → AprWindow → AprWindow
window_of none d = d
window_of (some z) d =
    if is_number 7 z
    then eras_7
    else if is_number 28 z
    then eras_28
    else if is_number 84 z
    then eras_84
    else d

-- `Number` of a text is the platform's.
module _ (to_number : String → Option ℤ) where
  abbrev pub number_of : Raw → Option ℤ
  number_of undefined = none
  number_of null = some (pos 0)
  number_of (bool b) = some (pos (if b then unit else 0))
  number_of (text t) = to_number t
  number_of (number n) = n

  unfoldable pub sanitize_filters : Option RawFilters → Filters
  sanitize_filters none = default_filters
  sanitize_filters (some r) = record {
    status = status_or r.raw_status active;
    max_commission = clamp_or (number_of r.raw_max_commission) (100 * unit) (99 * unit);
    no_recent_raise = bool_or r.raw_no_recent_raise false;
    identity = identity_or r.raw_identity any_identity;
    not_blocked = bool_or r.raw_not_blocked true;
    reliable = reliability_or r.raw_reliability unset;
    single_page = bool_or r.raw_single_page false;
    min_self_stake = clamp_or (number_of r.raw_min_self_stake) (10 ^ 12 * unit) 0;
    no_slash = bool_or r.raw_no_slash true;
    spread = bool_or r.raw_spread false;
    apr_window = window_of (number_of r.raw_apr_window) eras_28;
    sort = sort_or r.raw_sort apr;
  }
