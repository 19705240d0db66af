-- ===== src/Rewards/Unclaimed/Shares.antt =====
-- What all that back a validator are owed is never more than its part of the reward.
use native.Mathlib.Nat.{
  le-div_iff_mul-le, div-mul-le_self, mul-le-mul_left, mul-le-mul_right, div-le_of_le-mul, mul_comm,
}
use pdexplorer.Prelude.{
  ℕ, ◌+◌, ◌-◌, ◌*◌, ◌/◌, ◌≤◌, ◌<◌, Bool, true, false, not, ◌||◌, Bool-cases, inl, inr, ◌≡◌, ◌∙◌,
  refl, ap, subst, Option, none, some, List, [], ◌∷◌, String, str_eq, eq_iff, All, arith, ltb→lt,
  ltb, ◌==◌, filter_by, length, if◌then◌else◌,
}
use pdexplorer.Rewards.Unclaimed.{
  Page, Exposure, Era, Stake, stake_of, sum_pages, available, cut_of, share, unpaid_part,
  payout_amount, payout_from, payout, billion,
}

share_mul : (a s t : ℕ) → share a s t * t ≤ a * s
unfolding share
share_mul a s t = div-mul-le_self (a * s) t

share_of_mul : (x a s t : ℕ) → 0 < t → x * t ≤ a * s → x ≤ share a s t
unfolding share
share_of_mul x a s t h k = (le-div_iff_mul-le h).1 k

share_add : (a s u t : ℕ) → 0 < t → share a s t + share a u t ≤ share a (s + u) t
share_add a s u t h =
    share_of_mul (share a s t + share a u t) a (s + u) t h
      (omega (arith, share_mul a s t, share_mul a u t))

share_le : (a s t : ℕ) → 0 < t → s ≤ t → share a s t ≤ a
unfolding share
share_le a s t h k = div-le_of_le-mul t (omega (arith, mul-le-mul_left a k, mul_comm t a))

-- A part of an amount, by the weight of some of the pages.
sum_pages-filter_by :
    (p : Page → Bool) (pgs : List Page) → sum_pages (filter_by p pgs) ≤ sum_pages pgs
sum_pages-filter_by p [] = omega arith
sum_pages-filter_by p (pg ∷ pgs) = ground (arith, sum_pages-filter_by p pgs)

part_le : (a s t : ℕ) → s ≤ t → (if ltb 0 t then a * s / t else a) ≤ a
part_le a s t k = elim (Bool-cases (ltb 0 t)) [
  | inl e ↦ rw e (unfold share in share_le a s t (ltb→lt 0 t e) k)
  | inr e ↦ rw e omega arith
]

unpaid_part-le :
    (a : ℕ) (p : Page → Bool) (pgs : List Page) → unpaid_part a pgs (filter_by p pgs) ≤ a
unfolding unpaid_part
unpaid_part-le a p pgs = elim (Bool-cases (ltb (length (filter_by p pgs)) (length pgs))) [
  | inl e ↦
      rw e (part_le a (sum_pages (filter_by p pgs)) (sum_pages pgs) (sum_pages-filter_by p pgs))
  | inr e ↦ rw e omega arith
]

cut_of-le :
    (era : Era) (v : String) → era.commission_of v ≤ billion → cut_of era v ≤ available era v
unfolding cut_of
cut_of-le era v h = div-le_of_le-mul billion (mul-le-mul_right (available era v) h)

abbrev pub staked_in : Option Stake → ℕ
staked_in none = 0
staked_in (some st) = st.staked

abbrev rest_of : Era → String → ℕ
rest_of era v = available era v - cut_of era v

zero_or-le : (b : Bool) (x y : ℕ) → x ≤ y → (if b then 0 else x) ≤ y
zero_or-le true x y h = omega arith
zero_or-le false x y h = h

payout_from-le :
    (era : Era) (v : String) (e : Exposure) (o : Option Stake)
    → (payout_from era v false e o ≤ share (rest_of era v) (staked_in o) e.total)
      × (payout_from era v true e o ≤ share (rest_of era v) (staked_in o) e.total + cut_of era v)
unfolding payout_amount
payout_from-le era v e none = (omega arith, omega arith)
payout_from-le era v e (some st) =
    let p : Page → Bool = λ pg. not (era.is_page_claimed v pg.page e.exposure_source) in
    let unpaid = filter_by p st.pages_owed in
    let stops = length unpaid == 0 || era.points_of v == 0 in
    let base = share (rest_of era v) st.staked e.total in
    (
      zero_or-le stops base base (omega arith),
      zero_or-le stops (unpaid_part (base + cut_of era v) st.pages_owed unpaid)
          (base + cut_of era v) (unpaid_part-le (base + cut_of era v) p st.pages_owed),
    )

-- What the validator and others are owed by it in the era.
abbrev pub sum_payouts : Era → String → Exposure → List String → ℕ
sum_payouts era v e [] = 0
sum_payouts era v e (w ∷ ws) = payout era w v e + sum_payouts era v e ws

abbrev pub sum_stakes : String → Exposure → List String → ℕ
sum_stakes v e [] = 0
sum_stakes v e (w ∷ ws) = staked_in (stake_of w v e) + sum_stakes v e ws

payout_zero : (era : Era) (v w : String) (e : Exposure) → e.total ≡ 0 → payout era w v e ≡ 0
unfolding payout
payout_zero era v w e h = ground (arith, h)

sum_payouts_zero :
    (era : Era) (v : String) (e : Exposure) (ws : List String)
    → e.total ≡ 0
    → sum_payouts era v e ws ≡ 0
sum_payouts_zero era v e [] h = refl
sum_payouts_zero era v e (w ∷ ws) h =
    omega (arith, payout_zero era v w e h, sum_payouts_zero era v e ws h)

not_zero : (n : ℕ) → 0 < n → (n == 0) ≡ false
not_zero n h = ground (arith, h)

payout_open :
    (era : Era) (v w : String) (e : Exposure) (b : Bool)
    → 0 < e.total
    → str_eq v w ≡ b
    → payout era w v e ≡ payout_from era v b e (stake_of w v e)
unfolding payout
payout_open era v w e b h k =
    ap (λ c. if c then 0 else payout_from era v (str_eq v w) e (stake_of w v e))
      (not_zero e.total h)
    ∙ ap (λ c. payout_from era v c e (stake_of w v e)) k

payout_other :
    (era : Era) (v w : String) (e : Exposure)
    → 0 < e.total
    → str_eq v w ≡ false
    → payout era w v e ≤ share (rest_of era v) (staked_in (stake_of w v e)) e.total
payout_other era v w e h other =
    rw (payout_open era v w e false h other) (payout_from-le era v e (stake_of w v e)).0

own_stake : (v : String) (e : Exposure) → staked_in (stake_of v v e) ≡ e.own
unfolding stake_of
own_stake v e = rw ((eq_iff v v).1 refl) refl

payout_self :
    (era : Era) (v : String) (e : Exposure)
    → 0 < e.total
    → payout era v v e ≤ share (rest_of era v) e.own e.total + cut_of era v
payout_self era v e h = rw (payout_open era v v e true h ((eq_iff v v).1 refl)) (
    subst
      (λ n.
        payout_from era v true e (stake_of v v e) ≤ share (rest_of era v) n e.total + cut_of era v)
      (own_stake v e) (payout_from-le era v e (stake_of v v e)).1)

sum_payouts-le :
    (era : Era) (v : String) (e : Exposure) (ws : List String)
    → 0 < e.total
    → All (λ w. str_eq v w ≡ false) ws
    → sum_payouts era v e ws ≤ share (rest_of era v) (sum_stakes v e ws) e.total
sum_payouts-le era v e [] h o = omega arith
sum_payouts-le era v e (w ∷ ws) h (other, others) = omega (
  arith,
  payout_other era v w e h other,
  sum_payouts-le era v e ws h others,
  share_add (rest_of era v) (staked_in (stake_of w v e)) (sum_stakes v e ws) e.total h,
)

-- With a commission of at most the whole, and an exposure whose own stake and the stakes of the given
-- backers, each other than the validator, fit in its total: what the validator and these backers are
-- owed for the era, whatever pages were claimed, is at most the validator's part of the reward.
pub payouts_fit :
    (era : Era) (v : String) (e : Exposure) (ws : List String)
    → era.commission_of v ≤ billion
    → All (λ w. str_eq v w ≡ false) ws
    → e.own + sum_stakes v e ws ≤ e.total
    → payout era v v e + sum_payouts era v e ws ≤ available era v
payouts_fit era v e ws c others fit = elim (Bool-cases (ltb 0 e.total)) [
  | inl h ↦
      let pos = ltb→lt 0 e.total h in
      omega (
        arith,
        payout_self era v e pos,
        sum_payouts-le era v e ws pos others,
        share_add (rest_of era v) e.own (sum_stakes v e ws) e.total pos,
        share_le (rest_of era v) (e.own + sum_stakes v e ws) e.total pos fit,
        cut_of-le era v c,
      )
  | inr h ↦ omega (
    arith,
    payout_zero era v v e (ground (arith, h)),
    sum_payouts_zero era v e ws (ground (arith, h)),
  )
]
