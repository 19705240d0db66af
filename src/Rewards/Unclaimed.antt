-- ===== src/Rewards/Unclaimed.antt =====
-- lib/unclaimed-rewards.js: what a stash is owed in an era, and when the stored list of it is replaced.
-- Amounts are BigInts of planck; a commission is at most the whole of a Perbill.
pub mod Shares
pub mod Merge
use pdexplorer.Prelude.{
  ℕ, ◌+◌, ◌-◌, ◌*◌, ◌/◌, ◌^◌, Bool, true, false, not, ◌&&◌, ◌||◌, Option, none, some, List, [], ◌∷◌,
  ◌++◌, String, str_eq, ltb, leb, ◌==◌, find, any, filter_by, length, if◌then◌else◌,
}

abbrev pub billion : ℕ
billion = 10 ^ 9

pub record Backer : Type 0 where
  pub who : String
  pub value : ℕ

pub record Page : Type 0 where
  pub page : ℕ
  pub page_total : ℕ
  pub others : List Backer

pub data Source : Type 0 where
  paged legacy : Source

pub record Exposure : Type 0 where
  pub total : ℕ
  pub own : ℕ
  pub pages : List Page
  pub exposure_source : Source

-- The reward data of the era, and which pages are claimed.
pub record Era : Type 0 where
  pub reward : ℕ
  pub total_points : ℕ
  pub points_of : String → ℕ
  pub commission_of : String → ℕ
  pub is_page_claimed : String → ℕ → Source → Bool

-- What the stash has at stake with a validator, and the pages that pay for it.
pub record Stake : Type 0 where
  pub staked : ℕ
  pub pages_owed : List Page

abbrev pub cons_page : Option Backer → Page → Option Stake → Option Stake
cons_page none pg rest = rest
cons_page (some me) pg rest = some (record { staked = me.value; pages_owed = pg ∷ [] })

-- The first page that has the stash among its backers.
unfoldable pub stake_on : String → List Page → Option Stake
stake_on stash [] = none
stake_on stash (pg ∷ pgs) =
    cons_page (find (λ o. str_eq o.who stash) pg.others) pg (stake_on stash pgs)

abbrev pub own_pages : ℕ → List Page → List Page
own_pages total [] = record { page = 0; page_total = total; others = [] } ∷ []
own_pages total (pg ∷ pgs) = pg ∷ pgs

unfoldable pub stake_of : String → String → Exposure → Option Stake
stake_of stash validator e =
    if str_eq validator stash
    then some (record { staked = e.own; pages_owed = own_pages e.total e.pages })
    else stake_on stash e.pages

abbrev pub sum_pages : List Page → ℕ
sum_pages [] = 0
sum_pages (pg ∷ pgs) = pg.page_total + sum_pages pgs

-- The validator's part of the reward, its cut of that, and the share of a stake in the rest.
unfoldable pub available : Era → String → ℕ
available era validator = era.reward * era.points_of validator / era.total_points

unfoldable pub cut_of : Era → String → ℕ
cut_of era validator = era.commission_of validator * available era validator / billion

unfoldable pub share : ℕ → ℕ → ℕ → ℕ
share amount staked total = amount * staked / total

-- The validator is paid page by page: only the unpaid pages are owed.
unfoldable pub unpaid_part : ℕ → List Page → List Page → ℕ
unpaid_part amount owed unpaid =
    if ltb (length unpaid) (length owed)
    then if ltb 0 (sum_pages owed) then amount * sum_pages unpaid / sum_pages owed else amount
    else amount

unfoldable pub payout_amount : Era → String → Bool → Exposure → Stake → List Page → ℕ
payout_amount era validator is_self e st unpaid =
    let base = share (available era validator - cut_of era validator) st.staked e.total in
    if is_self then unpaid_part (base + cut_of era validator) st.pages_owed unpaid else base

abbrev pub payout_from : Era → String → Bool → Exposure → Option Stake → ℕ
payout_from era validator is_self e none = 0
payout_from era validator is_self e (some st) =
    let unpaid =
      filter_by (λ pg. not (era.is_page_claimed validator pg.page e.exposure_source))
        st.pages_owed in
    if (length unpaid == 0) || (era.points_of validator == 0)
    then 0
    else payout_amount era validator is_self e st unpaid

-- What one validator still owes the stash: 0 where the loop goes on without a row.
unfoldable pub payout : Era → String → String → Exposure → ℕ
payout era stash validator e =
    if e.total == 0
    then 0
    else payout_from era validator (str_eq validator stash) e (stake_of stash validator e)

pub record OwedRow : Type 0 where
  pub owed_by : String
  pub amount : ℕ

pub record Entry : Type 0 where
  pub validator : String
  pub exposure : Exposure

unfoldable pub payouts : Era → String → List Entry → List OwedRow
payouts era stash [] = []
payouts era stash (x ∷ index) =
    let amount = payout era stash x.validator x.exposure in
    let rest = payouts era stash index in
    if ltb 0 amount then record { owed_by = x.validator; amount = amount } ∷ rest else rest

unfoldable pub stash_era_payouts : Era → String → List Entry → List OwedRow
stash_era_payouts era stash index =
    if (era.reward == 0) || (era.total_points == 0) then [] else payouts era stash index

-- A stored row, with the era that `Number` reads of it.
pub record Row : Type 0 where
  pub row_era : ℕ
  pub row_validator : String
  pub row_amount : ℕ

-- `empty` is a set: its eras are counted once each.
unfoldable pub distinct : List ℕ → List ℕ
distinct [] = []
distinct (e ∷ es) = let rest = distinct es in if any (e ==◌) rest then rest else e ∷ rest

unfoldable pub merge_unclaimed : List Row → List Row → List ℕ → ℕ → Option (List Row)
merge_unclaimed existing computed empty_eras scanned =
    if ltb 0 scanned && leb scanned (length (distinct empty_eras))
    then none
    else some (filter_by (λ r. any (r.row_era ==◌) empty_eras) existing ++ computed)
