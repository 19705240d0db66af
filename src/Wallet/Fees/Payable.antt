-- ===== src/Wallet/Fees/Payable.antt =====
-- The check of a fee against the rules of the chain, and whether the top-up that it names is enough.
use pdexplorer.Prelude.{
  ℕ, ◌+◌, ◌-◌, ◌≤◌, ◌<◌, ◌≡◌, refl, ◌⊎◌, ◌↔◌, inl, inr, true, false, ◌||◌, none, some, max, arith,
  Bool-cases, ltb,
}
use pdexplorer.Wallet.Fees.{
  fee_floor, transfer_keep, Charge, Shortfall, fee_needs, amount_needs, fee_shortfall,
}

-- `Currency::withdraw(fee, KeepAlive)` of the chain: what is left of free holds all that is frozen, and
-- the existential deposit where the account held it before.
abbrev pub PaysFee : Charge → Type 0
PaysFee c = (c.fee + c.frozen ≤ c.free) × ((c.free < c.ed) ⊎ (c.fee + c.ed ≤ c.free))

-- The account may be reaped: it need not be kept alive, and nothing of it is frozen or reserved.
abbrev pub MayBeReaped : Charge → Type 0
MayBeReaped c = (c.keep_alive ≡ false) × (c.frozen ≡ 0) × (c.reserved ≡ 0)

-- The reducible balance of the chain after the fee: the rest of free and what is reserved hold all that
-- is frozen, and the rest holds the existential deposit of an account that may not be reaped.
abbrev pub PaysAmount : Charge → Type 0
PaysAmount c =
    (c.fee + c.amount ≤ c.free)
    × (c.fee + c.amount + c.frozen ≤ c.free + c.reserved)
    × (MayBeReaped c ⊎ (c.fee + c.amount + c.ed ≤ c.free))

fee_needs_iff : (c : Charge) → (fee_needs c ≤ c.free) ↔ PaysFee c
unfolding fee_needs fee_floor
fee_needs_iff c = ground arith

amount_needs_iff : (c : Charge) → (amount_needs c ≤ c.free) ↔ ((c.amount ≡ 0) ⊎ PaysAmount c)
unfolding amount_needs transfer_keep
amount_needs_iff c = elim (Bool-cases (c.keep_alive || (ltb 0 c.frozen || ltb 0 c.reserved))) [
  | inl e ↦ ground (arith, e)
  | inr e ↦ ground (arith, e)
]

shortfall_iff :
    (c : Charge) → (fee_shortfall c ≡ none) ↔ ((fee_needs c ≤ c.free) × (amount_needs c ≤ c.free))
unfolding fee_shortfall
shortfall_iff c = ground arith

shortfall_fields :
    (c : Charge) (s : Shortfall)
    → fee_shortfall c ≡ some s
    → (s.needed ≡ max (fee_needs c) (amount_needs c))
      × (s.top_up ≡ s.needed - c.free)
      × (c.free < s.needed)
unfolding fee_shortfall
shortfall_fields c s h = ground arith

-- The check passes exactly where the chain takes the fee and, with an amount to send, the amount.
pub fee_shortfall-none :
    (c : Charge) → (fee_shortfall c ≡ none) ↔ (PaysFee c × ((c.amount ≡ 0) ⊎ PaysAmount c))
fee_shortfall-none c =
    let (to, from) = shortfall_iff c in
    let (fee_to, fee_from) = fee_needs_iff c in
    let (amount_to, amount_from) = amount_needs_iff c in
    ((λ h. (fee_to (to h).0, amount_to (to h).1)), (λ (pf, pa). from (fee_from pf, amount_from pa)))

-- The case that the message singles out: the pool, which tests only the fee against what is not
-- frozen, accepts the transaction, and the chain does not take the fee.
pub never_included_lem :
    (c : Charge) (s : Shortfall)
    → fee_shortfall c ≡ some s
    → (s.never_included ≡ true) ↔ ((c.fee + c.frozen ≤ c.free) × (c.ed ≤ c.free) × ¬ PaysFee c)
unfolding fee_shortfall fee_needs fee_floor
never_included_lem c s h = ground arith

-- The account with more in free.
abbrev pub topped_up : ℕ → Charge → Charge
topped_up n c = record c { free = c.free + n }

amount_needs-topped_up : (n : ℕ) (c : Charge) → amount_needs (topped_up n c) ≡ amount_needs c
unfolding amount_needs
amount_needs-topped_up n c = refl

-- The top-up is enough exactly where the account already holds the existential deposit, or does not
-- reach it, or what is needed covers the fee above that deposit.
pub top_up_enough :
    (c : Charge) (s : Shortfall)
    → fee_shortfall c ≡ some s
    → (fee_shortfall (topped_up s.top_up c) ≡ none)
      ↔ ((c.ed ≤ c.free) ⊎ ((s.needed < c.ed) ⊎ (c.fee + c.ed ≤ s.needed)))
top_up_enough c s h =
    let (needed, top_up, less) = shortfall_fields c s h in
    let (to, from) = shortfall_iff (topped_up s.top_up c) in
    let same = amount_needs-topped_up s.top_up c in unfold fee_needs fee_floor in ground arith
