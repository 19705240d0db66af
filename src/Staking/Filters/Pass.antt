-- ===== src/Staking/Filters/Pass.antt =====
-- The predicates of lib/stake-filters.js, and what passes them. The figures of a validator that are
-- missing or no finite numbers are `none`; a missing text is empty.
use pdexplorer.Prelude.{
  ℕ, ◌+◌, ◌-◌, ◌*◌, Bool, true, false, not, ◌&&◌, ◌||◌, Option, none, some, List, [], ◌∷◌, ltb, leb,
  ◌==◌, any, all, length, filter_by, if◌then◌else◌,
}
use pdexplorer.Prelude.Text.{Text, is_empty, trim, to_lower_case, includes}
use pdexplorer.Staking.Filters.{
  unit, slash_lookback_eras, exposure_page_size, Status, active, waiting, all_statuses, Identity,
  any_identity, has, verified, Reliability, unset, no_miss, from_90, from_100, AprWindow, Filters,
}

pub data PerfStatus : Type 0 where
  settled new absent : PerfStatus

pub record Perf : Type 0 where
  pub perf_status : PerfStatus
  pub perf_apr : Option ℕ
  pub elected_eras : ℕ
  pub missed_eras : ℕ
  pub perf_reliability : Option ℕ

pub record Validator : Type 0 where
  pub address : Text
  pub validator_name : Text
  pub is_active : Bool
  pub commission_now : Option ℕ
  pub raised_recently : Bool
  pub pending_raise : Bool
  pub has_identity : Bool
  pub is_verified : Bool
  pub parent : Text
  pub blocked : Bool
  pub perf_for : AprWindow → Option Perf
  pub exposure_pages : Option ℕ
  pub exposure_nominators : Option ℕ
  pub backers : Option ℕ
  pub self_stake_now : Option ℕ
  pub total_stake_now : Option ℕ
  pub slash_eras : List ℕ

-- `groups` is none where the caller has none; an `active_era` or a `page_size` of 0 is missing.
pub record Context : Type 0 where
  pub active_era : ℕ
  pub page_size : ℕ
  pub is_selected : Text → Bool
  pub groups : Option (Text → Bool)
  pub search : Text

unfoldable pub identity_group : Validator → Option Text
identity_group v =
    if v.has_identity then some (if is_empty v.parent then v.address else v.parent) else none

-- `FILTER_KEYS`, by the fields of the state.
pub data FilterKey : Type 0 where
  by_status by_max_commission by_no_recent_raise by_identity by_not_blocked : FilterKey
  by_reliability by_single_page by_min_self_stake by_no_slash by_spread : FilterKey

abbrev pub filter_keys : List FilterKey
filter_keys =
    by_status ∷ by_max_commission ∷ by_no_recent_raise ∷ by_identity ∷ by_not_blocked
    ∷ by_reliability ∷ by_single_page ∷ by_min_self_stake ∷ by_no_slash ∷ by_spread ∷ []

abbrev pub key_index : FilterKey → ℕ
key_index by_status = 0
key_index by_max_commission = 1
key_index by_no_recent_raise = 2
key_index by_identity = 3
key_index by_not_blocked = 4
key_index by_reliability = 5
key_index by_single_page = 6
key_index by_min_self_stake = 7
key_index by_no_slash = 8
key_index by_spread = 9

abbrev pub at_most : Option ℕ → ℕ → Bool
at_most none n = false
at_most (some c) n = leb c n

abbrev pub at_least : Option ℕ → ℕ → Bool
at_least none n = false
at_least (some c) n = leb n c

unfoldable pub passes_status : Validator → Status → Bool
passes_status v all_statuses = true
passes_status v active = v.is_active
passes_status v waiting = not v.is_active

unfoldable pub passes_max_commission : Validator → Filters → Bool
passes_max_commission v s =
    leb (100 * unit) s.max_commission || at_most v.commission_now s.max_commission

unfoldable pub passes_identity : Validator → Identity → Bool
passes_identity v any_identity = true
passes_identity v has = v.has_identity
passes_identity v verified = v.is_verified

-- A reliability counts as enough from 10^-9 below the one asked for.
unfoldable pub passes_reliability : Option Perf → Reliability → Bool
passes_reliability p unset = true
passes_reliability none r = false
passes_reliability (some p) no_miss = ltb 0 p.elected_eras && p.missed_eras == 0
passes_reliability (some p) from_90 =
    ltb 0 p.elected_eras && at_least p.perf_reliability (90 * unit - 1)
passes_reliability (some p) from_100 =
    ltb 0 p.elected_eras && at_least p.perf_reliability (100 * unit - 1)

abbrev pub first_of : Option ℕ → Option ℕ → Option ℕ
first_of (some n) o = some n
first_of none o = o

abbrev pub fits_one_page : Option ℕ → Option ℕ → ℕ → Bool
fits_one_page (some pages) n size = leb pages 1
fits_one_page none n size = at_most n size

unfoldable pub passes_single_page : Validator → Filters → Context → Bool
passes_single_page v s ctx =
    not s.single_page
    || fits_one_page v.exposure_pages (first_of v.exposure_nominators v.backers)
        (if ctx.page_size == 0 then exposure_page_size else ctx.page_size)

unfoldable pub passes_min_self_stake : Validator → Filters → Bool
passes_min_self_stake v s =
    not (ltb 0 s.min_self_stake) || at_least v.self_stake_now s.min_self_stake

-- Without an era to count from, every slash counts.
unfoldable pub passes_no_slash : Validator → Filters → Context → Bool
passes_no_slash v s ctx =
    not s.no_slash
    || not (
        any (λ e. ctx.active_era == 0 || leb ctx.active_era (e + slash_lookback_eras)) v.slash_eras)

abbrev pub in_group : (Text → Bool) → Option Text → Bool
in_group has_group none = false
in_group has_group (some g) = has_group g

abbrev pub clear_of : Option (Text → Bool) → Validator → Context → Bool
clear_of none v ctx = true
clear_of (some has_group) v ctx =
    ctx.is_selected v.address || not (in_group has_group (identity_group v))

unfoldable pub passes_spread : Validator → Filters → Context → Bool
passes_spread v s ctx = not s.spread || clear_of ctx.groups v ctx

unfoldable pub predicate : FilterKey → Validator → Filters → Context → Bool
predicate by_status v s ctx = passes_status v s.status
predicate by_max_commission v s ctx = passes_max_commission v s
predicate by_no_recent_raise v s ctx =
    not s.no_recent_raise || not (v.raised_recently || v.pending_raise)
predicate by_identity v s ctx = passes_identity v s.identity
predicate by_not_blocked v s ctx = not s.not_blocked || not v.blocked
predicate by_reliability v s ctx = passes_reliability (v.perf_for s.apr_window) s.reliable
predicate by_single_page v s ctx = passes_single_page v s ctx
predicate by_min_self_stake v s ctx = passes_min_self_stake v s
predicate by_no_slash v s ctx = passes_no_slash v s ctx
predicate by_spread v s ctx = passes_spread v s ctx

unfoldable pub matches_search : Validator → Text → Bool
matches_search v search =
    let f = to_lower_case (trim search) in
    is_empty f
    || (includes (to_lower_case v.validator_name) f || includes (to_lower_case v.address) f)

abbrev pub is_key : Option FilterKey → FilterKey → Bool
is_key none k = false
is_key (some skip) k = key_index skip == key_index k

unfoldable pub passes : Validator → Filters → Context → Option FilterKey → Bool
passes v s ctx skip =
    all (λ k. is_key skip k || predicate k v s ctx) filter_keys && matches_search v ctx.search

-- The three functions that read a raw state are given it sanitized.
unfoldable pub apply_filters : List Validator → Filters → Context → List Validator
apply_filters vs s ctx = filter_by (λ v. passes v s ctx none) vs

pub record FilterCounts : Type 0 where
  pub shown : ℕ
  pub total : ℕ
  pub hidden_by : FilterKey → ℕ
  pub active_count : ℕ
  pub waiting_count : ℕ
  pub all_count : ℕ

unfoldable pub filter_counts : List Validator → Filters → Context → FilterCounts
filter_counts vs s ctx =
    let shown = length (filter_by (λ v. passes v s ctx none) vs) in
    let others = filter_by (λ v. passes v s ctx (some by_status)) vs in
    let active = length (filter_by (λ v. v.is_active) others) in
    record {
      shown = shown;
      total = length vs;
      hidden_by = λ k. length (filter_by (λ v. passes v s ctx (some k)) vs) - shown;
      active_count = active;
      waiting_count = length others - active;
      all_count = length others;
    }
