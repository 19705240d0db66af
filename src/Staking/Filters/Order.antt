-- ===== src/Staking/Filters/Order.antt =====
-- SORT_KEYS and sortValidators of lib/stake-filters.js. A key that is a number is the text of the one
-- code unit: the keys of one sort are all numbers or all texts, and both are compared by `<`.
pub mod Stable
use pdexplorer.Prelude.{
  ℕ, suc, Bool, true, false, not, ◌&&◌, ◌||◌, Option, none, some, List, [], ◌∷◌, map, ltb, leb,
  ◌==◌, if◌then◌else◌,
}
use pdexplorer.Prelude.Sort.{sort_by}
use pdexplorer.Prelude.Text.{Text, is_empty, text_eq, codes, to_lower_case}
use pdexplorer.Staking.Filters.{
  Sort, apr, commission, total_stake, self_stake, reliability, name, AprWindow, Filters,
}
use pdexplorer.Staking.Filters.Pass.{Perf, settled, new, absent, PerfStatus, Validator}

abbrev pub number_key : Option ℕ → Option Text
number_key none = none
number_key (some n) = some (n ∷ [])

abbrev apr_key : Option Perf → Option Text
apr_key none = none
apr_key (some p) = elim p.perf_status [ settled ↦ number_key p.perf_apr | _ ↦ none ]

abbrev reliability_key : Option Perf → Option Text
reliability_key none = none
reliability_key (some p) = number_key p.perf_reliability

abbrev name_or_address : Validator → Text
name_or_address v =
    if is_empty v.validator_name || text_eq v.validator_name (codes "Unknown")
    then v.address
    else v.validator_name

unfoldable pub sort_key : Filters → Validator → Option Text
sort_key s v = elim s.sort [
  | apr ↦ apr_key (v.perf_for s.apr_window)
  | commission ↦ number_key v.commission_now
  | total_stake ↦ number_key v.total_stake_now
  | self_stake ↦ number_key v.self_stake_now
  | reliability ↦ reliability_key (v.perf_for s.apr_window)
  | name ↦ some (to_lower_case (name_or_address v))
]

abbrev new_first : Option Perf → ℕ
new_first none = 1
new_first (some p) = elim p.perf_status [ new ↦ 0 | _ ↦ 1 ]

-- The order of two validators without a key: only the sort by APR has one.
unfoldable pub tie_of : Filters → Validator → ℕ
tie_of s v = elim s.sort [ apr ↦ new_first (v.perf_for s.apr_window) | _ ↦ 0 ]

abbrev pub is_descending : Sort → Bool
is_descending apr = true
is_descending commission = false
is_descending total_stake = true
is_descending self_stake = true
is_descending reliability = true
is_descending name = false

-- `a <= b` on texts, by their code units.
unfoldable pub leb_text : Text → Text → Bool
leb_text [] t = true
leb_text (a ∷ s) [] = false
leb_text (a ∷ s) (b ∷ t) = let rest = leb_text s t in ltb a b || (a == b && rest)

-- A row with its place in the list that came in.
pub record Placed : Type 0 where
  pub key : Option Text
  pub tie : ℕ
  pub place : ℕ
  pub row : Validator

abbrev pub key_leb : Bool → Option Text → ℕ → Option Text → ℕ → Bool
key_leb desc none t none u = leb t u
key_leb desc none t (some b) u = false
key_leb desc (some a) t none u = true
key_leb desc (some a) t (some b) u = if desc then leb_text b a else leb_text a b

-- The comparison is at most 0: by the keys, and where they are equal by the places.
unfoldable pub goes_before : Bool → Placed → Placed → Bool
goes_before desc a b =
    if key_leb desc b.key b.tie a.key a.tie
    then key_leb desc a.key a.tie b.key b.tie && leb a.place b.place
    else true

unfoldable pub placed : Filters → ℕ → List Validator → List Placed
placed s i [] = []
placed s i (v ∷ vs) =
    record { key = sort_key s v; tie = tie_of s v; place = i; row = v } ∷ placed s (suc i) vs

unfoldable pub sorted_rows : Filters → List Validator → List Placed
sorted_rows s vs = sort_by (goes_before (is_descending s.sort)) (placed s 0 vs)

unfoldable pub sort_validators : Filters → List Validator → List Validator
sort_validators s vs = map (λ p. p.row) (sorted_rows s vs)
