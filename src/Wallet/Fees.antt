-- ===== src/Wallet/Fees.antt =====
-- lib/fee-preflight.js and the figures of lib/balance-locks.js that rest on it. Amounts are in planck;
-- one that is missing reads as 0.
pub mod Payable
pub mod Transferable
use pdexplorer.Prelude.{
  ℕ, zero, suc, ◌+◌, ◌-◌, ◌*◌, ◌^◌, min, max, Bool, true, false, not, ◌&&◌, ◌||◌, Option, none,
  some, List, [], ◌∷◌, String, str_eq, ltb, leb, ◌==◌, get_elem?, if◌then◌else◌,
}

unfoldable pub fee_floor : ℕ → ℕ → ℕ → ℕ
fee_floor free frozen ed = if leb ed free then max frozen ed else frozen

abbrev pub fee_margin : ℕ
fee_margin = 5 * 10 ^ 10

unfoldable pub transfer_keep : ℕ → ℕ → ℕ → Bool → ℕ
transfer_keep frozen reserved ed keep_alive =
    if keep_alive || (ltb 0 frozen || ltb 0 reserved)
    then max (frozen - reserved) ed
    else frozen - reserved

-- What the check of a fee reads.
pub record Charge : Type 0 where
  pub fee : ℕ
  pub amount : ℕ
  pub keep_alive : Bool
  pub free : ℕ
  pub reserved : ℕ
  pub frozen : ℕ
  pub ed : ℕ

pub record Shortfall : Type 0 where
  pub needed : ℕ
  pub short_free : ℕ
  pub short_reserved : ℕ
  pub locked : ℕ
  pub short_amount : ℕ
  pub short_fee : ℕ
  pub top_up : ℕ
  pub never_included : Bool

unfoldable pub fee_needs : Charge → ℕ
fee_needs c = c.fee + fee_floor c.free c.frozen c.ed

unfoldable pub amount_needs : Charge → ℕ
amount_needs c =
    if c.amount == 0
    then 0
    else c.fee + c.amount + transfer_keep c.frozen c.reserved c.ed c.keep_alive

unfoldable pub fee_shortfall : Charge → Option Shortfall
fee_shortfall c =
    let needed = max (fee_needs c) (amount_needs c) in
    if leb needed c.free
    then none
    else some (record {
      needed = needed;
      short_free = c.free;
      short_reserved = c.reserved;
      locked = c.frozen;
      short_amount = c.amount;
      short_fee = c.fee;
      top_up = needed - c.free;
      never_included =
          ltb c.free (fee_needs c) && (leb (c.fee + c.frozen) c.free && leb c.ed c.free);
    })

-- The data of `system.account`; `frozen` is absent before the freeze rework.
pub record AccountData : Type 0 where
  pub data_free : ℕ
  pub data_reserved : ℕ
  pub data_frozen : Option ℕ
  pub misc_frozen : ℕ
  pub fee_frozen : ℕ

pub record Balances : Type 0 where
  pub bal_free : ℕ
  pub bal_reserved : ℕ
  pub bal_frozen : ℕ
  pub bal_ed : ℕ

unfoldable pub account_balances : AccountData → ℕ → Balances
account_balances d ed = record {
  bal_free = d.data_free;
  bal_reserved = d.data_reserved;
  bal_frozen = elim d.data_frozen [ some fz ↦ fz | none ↦ max d.misc_frozen d.fee_frozen ];
  bal_ed = ed;
}

pub record Breakdown : Type 0 where
  pub total : ℕ
  pub transferable : ℕ
  pub transferable_allow_death : ℕ
  pub can_pay_fee : Bool
  pub fee_top_up : Option ℕ
  pub ed_withheld : ℕ

abbrev pub charge_of : ℕ → ℕ → Bool → Balances → Charge
charge_of fee amount keep_alive b = record {
  fee = fee;
  amount = amount;
  keep_alive = keep_alive;
  free = b.bal_free;
  reserved = b.bal_reserved;
  frozen = b.bal_frozen;
  ed = b.bal_ed;
}

abbrev pub payable : Option Shortfall → Bool
payable none = true
payable (some _) = false

abbrev pub top_up_of : Option Shortfall → Option ℕ
top_up_of none = none
top_up_of (some s) = some s.top_up

-- The copies of free, reserved, frozen, ed and locked in the result are left out.
unfoldable pub balance_breakdown : Balances → Breakdown
balance_breakdown b =
    let untouchable = b.bal_frozen - b.bal_reserved in
    let short = fee_shortfall (charge_of fee_margin 0 true b) in
    record {
      total = b.bal_free + b.bal_reserved;
      transferable =
          (if payable short
            then b.bal_free - transfer_keep b.bal_frozen b.bal_reserved b.bal_ed true
            else 0);
      transferable_allow_death =
          (if payable short
            then b.bal_free - transfer_keep b.bal_frozen b.bal_reserved b.bal_ed false
            else 0);
      can_pay_fee = payable short;
      fee_top_up = top_up_of short;
      ed_withheld = (if ltb untouchable b.bal_ed then min b.bal_free b.bal_ed - untouchable else 0);
    }

-- The call of a transaction, with its amounts as arguments.
pub record Call : Type 0 where
  pub section : String
  pub method : String
  pub args : List ℕ

pub record Transfer : Type 0 where
  pub transfer_amount : ℕ
  pub transfer_keep_alive : Bool

abbrev or_zero : Option ℕ → ℕ
or_zero none = 0
or_zero (some n) = n

unfoldable pub transfer_of : Call → Option Transfer
transfer_of m =
    if not (str_eq m.section "balances")
    then none
    else if not (str_eq m.method "transferKeepAlive") && not (str_eq m.method "transferAllowDeath")
    then none
    else some (record {
      transfer_amount = or_zero (get_elem? m.args 1);
      transfer_keep_alive = str_eq m.method "transferKeepAlive";
    })

-- What the node answers in time: none where it refuses, fails or hangs.
pub record FeeAnswer : Type 0 where
  pub partial_fee : Option ℕ
  pub account : Option AccountData

pub data Preflight : Type 0 where
  ok unknown skipped : Preflight
  short : Shortfall → Preflight

abbrev verdict : Option Shortfall → Preflight
verdict none = ok
verdict (some s) = short s

abbrev preflight_charge : ℕ → Option Transfer → Balances → Charge
preflight_charge fee none b = charge_of fee 0 true b
preflight_charge fee (some t) b = charge_of fee t.transfer_amount t.transfer_keep_alive b

-- `askable` is false where the transaction or the api has nothing to ask. The texts and the address to
-- fund are left out.
unfoldable pub fee_preflight : Bool → Option FeeAnswer → ℕ → Call → Preflight
fee_preflight askable answer ed tx = elim askable [
  | false ↦ skipped
  | true ↦ elim answer [
    | none ↦ unknown
    | some a ↦ elim a.partial_fee [
      | none ↦ unknown
      | some fee ↦ elim a.account [
        | none ↦ unknown
        | some d ↦
            verdict (fee_shortfall (preflight_charge fee (transfer_of tx) (account_balances d ed)))
      ]
    ]
  ]
]
