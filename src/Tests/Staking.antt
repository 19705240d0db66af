-- ===== src/Tests/Staking.antt =====
-- Runs of the filters of the stake picker and of the history of a commission.
use pdexplorer.Prelude.{
  ℕ, ◌*◌, ◌^◌, ◌≤◌, ◌≡◌, refl, sym, Bool, true, false, Option, none, some, List, [], ◌∷◌, String,
  length, In,
}
use pdexplorer.Prelude.Int.{ℤ, pos, ◌+ℤ◌, ◌≤ℤ◌}
use pdexplorer.Prelude.Js.{int}
use pdexplorer.Prelude.Text.{codes}
use pdexplorer.Staking.Filters.{
  undefined as missing, null, bool, text, number, Raw, RawFilters, unit, sanitize_filters,
}
use pdexplorer.Staking.Filters.Storage.{
  IsPlain, ArePlain, load_filters, save_filters, load-save_filters,
}
use pdexplorer.Staking.Filters.Pass.{Validator, Context}
use pdexplorer.Staking.Commission.{
  HistoryRow, Point, points, series_of, point_of, was_elected_in_era, summarize_commission_history,
  raised_recently, commission_epsilon, walk_step, classify_volatility,
}
use pdexplorer.Staking.Commission.Evidence.{Shows, Consecutive, raised_recently_lem}

-- What an old version left in storage.
abbrev left : RawFilters
left = record {
  raw_status = text "gone";
  raw_max_commission = number (some (pos (250 * unit)));
  raw_no_recent_raise = bool true;
  raw_identity = text "has";
  raw_not_blocked = missing;
  raw_reliability = number (some (pos (90 * unit)));
  raw_single_page = bool false;
  raw_min_self_stake = number none;
  raw_no_slash = bool true;
  raw_spread = text "true";
  raw_apr_window = number (some (pos (84 * unit)));
  raw_sort = text "name";
}

abbrev no_number : String → Option ℤ
no_number t = none

-- A storage of one object at most.
abbrev put : RawFilters → Option RawFilters → Option (Option RawFilters)
put j st = some (some j)

-- As JSON writes a value: null for NaN.
abbrev plain : Raw → Raw
plain missing = missing
plain null = null
plain (bool b) = bool b
plain (text t) = text t
plain (number none) = null
plain (number (some z)) = number (some z)

plain_same : (x : Raw) → IsPlain x → plain x ≡ x
plain_same missing h = refl
plain_same null h = refl
plain_same (bool b) h = refl
plain_same (text t) h = refl
plain_same (number none) h = elim h [ ]
plain_same (number (some z)) h = refl

abbrev stringify : RawFilters → RawFilters
stringify r = record {
  raw_status = plain r.raw_status;
  raw_max_commission = plain r.raw_max_commission;
  raw_no_recent_raise = plain r.raw_no_recent_raise;
  raw_identity = plain r.raw_identity;
  raw_not_blocked = plain r.raw_not_blocked;
  raw_reliability = plain r.raw_reliability;
  raw_single_page = plain r.raw_single_page;
  raw_min_self_stake = plain r.raw_min_self_stake;
  raw_no_slash = plain r.raw_no_slash;
  raw_spread = plain r.raw_spread;
  raw_apr_window = plain r.raw_apr_window;
  raw_sort = plain r.raw_sort;
}

abbrev parse : RawFilters → Option (Option RawFilters)
parse j = some (some j)

parse-stringify : (r : RawFilters) → ArePlain r → parse (stringify r) ≡ some (some r)
parse-stringify r (a, b, c, d, e, f, g, h, i, j, k, l) =
    rw
      (
        plain_same r.raw_status a,
        plain_same r.raw_max_commission b,
        plain_same r.raw_no_recent_raise c,
        plain_same r.raw_identity d,
        plain_same r.raw_not_blocked e,
        plain_same r.raw_reliability f,
        plain_same r.raw_single_page g,
        plain_same r.raw_min_self_stake h,
        plain_same r.raw_no_slash i,
        plain_same r.raw_spread j,
        plain_same r.raw_apr_window k,
        plain_same r.raw_sort l,
      )
      refl

saved : (save_filters no_number stringify parse (λ st. some st) put left none).1 ≡ true
unfolding save_filters
saved = refl

load-save_filters_example :
    load_filters no_number stringify parse
      (λ st. some st)
      put
      (save_filters no_number stringify parse (λ st. some st) put left none).0
    ≡ sanitize_filters no_number (some left)
load-save_filters_example =
    load-save_filters no_number stringify parse (λ st. some st) put parse-stringify
      (λ j st after h. sym h) left none saved

abbrev validator : ℕ → Bool → Validator
validator rate on = record {
  address = codes "5F";
  validator_name = codes "Node";
  is_active = on;
  commission_now = some rate;
  raised_recently = false;
  pending_raise = false;
  has_identity = false;
  is_verified = false;
  parent = [];
  blocked = false;
  perf_for = λ w. none;
  exposure_pages = none;
  exposure_nominators = none;
  backers = none;
  self_stake_now = none;
  total_stake_now = none;
  slash_eras = [];
}

abbrev context : Context
context = record {
  active_era = 0;
  page_size = 0;
  is_selected = λ a. false;
  groups = none;
  search = [];
}

abbrev three : List Validator
three = validator (5 * unit) true ∷ validator (100 * unit) true ∷ validator (5 * unit) false ∷ []

abbrev row : ℕ → ℕ → HistoryRow
row e c = record { row_era = int (pos e); row_commission = int (pos c); row_stake = int (pos 9) }

-- From 1% to 20% between the eras 11 and 12.
abbrev history : List HistoryRow
history = row 12 (20 * 10 ^ 7) ∷ row 10 (10 ^ 7) ∷ row 11 (10 ^ 7) ∷ []

raised : raised_recently (summarize_commission_history history) (int (pos 14)) (pos 7) ≡ true
unfolding raised_recently summarize_commission_history series_of point_of was_elected_in_era
    walk_step classify_volatility
raised = refl

raised_recently_lem_example :
    (z : ℤ) × (r : HistoryRow) × (p : Point) × (s : HistoryRow) × (q : Point) × (int (pos 14)
      ≡ int z)
    × (In r history × Shows r p)
    × (In s history × Shows s q)
    × Consecutive (points history) p q
    × (p.rate +ℤ pos commission_epsilon ≤ℤ q.rate)
    × (z ≤ℤ p.era +ℤ pos 1 +ℤ pos 7)
    × (3 ≤ length (points history))
raised_recently_lem_example = raised_recently_lem history (int (pos 14)) (pos 7) raised
