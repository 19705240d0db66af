-- ===== src/Wallet/Fees/Transferable.antt =====
-- The figures of the balance panel.
use pdexplorer.Prelude.{ℕ, ◌+◌, ◌-◌, ◌≤◌, ◌<◌, ◌≡◌, ◌↔◌, Bool, true, false, none, min, arith}
use pdexplorer.Wallet.Fees.{
  fee_floor, transfer_keep, fee_needs, amount_needs, fee_margin, fee_shortfall, Balances, Breakdown,
  balance_breakdown, charge_of,
}

abbrev pub sendable : Bool → Breakdown → ℕ
sendable true d = d.transferable
sendable false d = d.transferable_allow_death

-- Whichever way the toggle stands, an amount passes the check of the transfer with the margin as its
-- fee exactly where the panel says that a fee can be paid and the amount and the fee fit in the figure
-- that it shows.
pub transferable_exact :
    (b : Balances) (amount : ℕ) (keep_alive : Bool)
    → 0 < amount
    → (fee_shortfall (charge_of fee_margin amount keep_alive b) ≡ none) ↔ (
        ((balance_breakdown b).can_pay_fee ≡ true)
        × (amount + fee_margin ≤ sendable keep_alive (balance_breakdown b)))
unfolding balance_breakdown fee_shortfall fee_needs amount_needs fee_floor transfer_keep
transferable_exact b amount true h = ground arith
transferable_exact b amount false h = ground arith

-- Where a fee can be paid, free splits into the transferable part, the part that only the existential
-- deposit keeps back, and the part that the locks keep back; the figure is not larger with the account
-- kept alive than without.
pub breakdown_splits :
    (b : Balances)
    → ((balance_breakdown b).can_pay_fee ≡ true
        → (balance_breakdown b).transferable
            + (balance_breakdown b).ed_withheld
            + min b.bal_free (b.bal_frozen - b.bal_reserved)
          ≡ b.bal_free)
      × ((balance_breakdown b).transferable ≤ (balance_breakdown b).transferable_allow_death)
      × ((balance_breakdown b).transferable_allow_death ≤ b.bal_free)
unfolding balance_breakdown fee_shortfall fee_needs amount_needs fee_floor transfer_keep
breakdown_splits b = ground arith
