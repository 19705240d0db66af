-- ===== src/Wallet/LockActions/Offer.antt =====
-- What a button signs, and for whom: lockActions and lockActionSpec of lib/lock-actions.js. A call is
-- known by its name and its arguments; what a runtime without a call answers is left out, and so are
-- the texts. `is_same` compares two addresses.
use pdexplorer.Prelude.{
  ℕ, max, Bool, false, not, ◌&&◌, ◌||◌, Option, none, some, List, [], ◌∷◌, ◌++◌, map, ltb, ◌==◌,
  String, str_eq, find, is_nil, if◌then◌else◌,
}
use pdexplorer.Wallet.LockActions.{
  Chunk, Schedule, Removal, Cancel, Direct, Democracy, DemocracyPlan, delegating, direct,
  unbonding_schedule, democracy_actions,
}
use pdexplorer.Wallet.LockActions.Pallet.{Call, unlock, remove_vote}

-- A lock of the balances pallet, with its id as text.
pub record BalanceLock : Type 0 where
  pub id : String
  pub amount : ℕ

pub record Staking : Type 0 where
  pub bonded : Bool
  pub chunks : List Chunk
  pub current_era : Option ℕ
  pub active_era : Option ℕ
  pub spans : ℕ
  pub controller : Option String

-- The snapshot that lib/balance-locks-chain.js builds, for an account with a known address.
pub record Snapshot : Type 0 where
  pub address : String
  pub locks : List BalanceLock
  pub staking : Staking
  pub democracy : Option Democracy
  pub has_council_vote : Bool
  pub block : ℕ

pub record Withdrawal : Type 0 where
  pub schedule : Schedule
  pub spans : ℕ
  pub signer : String
  pub controller_differs : Bool

pub record Orphan : Type 0 where
  pub stash : String
  pub amount : ℕ

pub record Actions : Type 0 where
  pub withdraw : Option Withdrawal
  pub democracy : Option DemocracyPlan
  pub council_vote : Bool
  pub orphan : Option Orphan

-- The greatest lock of an id.
unfoldable pub lock_of : String → List BalanceLock → ℕ
lock_of id [] = 0
lock_of id (l ∷ ls) = let rest = lock_of id ls in if str_eq l.id id then max l.amount rest else rest

abbrev pub address_or : Option String → String → String
address_or none address = address
address_or (some a) address = a

abbrev pub differs : Option String → String → Bool
differs none address = false
differs (some a) address = not (str_eq a address)

unfoldable pub withdrawal_of : Snapshot → Option Withdrawal
withdrawal_of snap =
    let st = snap.staking in
    if st.bonded && not (is_nil st.chunks)
    then some (record {
      schedule = unbonding_schedule st.chunks st.current_era st.active_era;
      spans = st.spans;
      signer = address_or st.controller snap.address;
      controller_differs = differs st.controller snap.address;
    })
    else none

unfoldable pub democracy_of : Snapshot → Option DemocracyPlan
democracy_of snap =
    let amount = lock_of "democrac" snap.locks in
    elim snap.democracy [
      | none ↦ none
      | some dem ↦
          if ltb 0 amount || not (is_nil dem.votes) || dem.delegating
          then some (
              democracy_actions dem (record {
                block = snap.block;
                lock_amount = if ltb 0 amount then some amount else none;
              }))
          else none
    ]

unfoldable pub orphan_of : Snapshot → Option Orphan
orphan_of snap =
    let amount = lock_of "staking " snap.locks in
    if ltb 0 amount && not snap.staking.bonded
    then some (record { stash = snap.address; amount = amount })
    else none

unfoldable pub lock_actions : Snapshot → Actions
lock_actions snap = record {
  withdraw = withdrawal_of snap;
  democracy = democracy_of snap;
  council_vote = snap.has_council_vote;
  orphan = orphan_of snap;
}

-- The calls of the button "Remove votes and unlock".
unfoldable pub unlock_calls : Direct → List Call
unlock_calls d =
    (if d.rejig_first then unlock ∷ [] else [])
    ++ (map (λ (r : Removal). remove_vote r.index) d.remove
        ++ (if d.unlock then unlock ∷ [] else []))

pub data Button : Type 0 where
  withdraw democracy_unlock democracy_undelegate elections_remove migrate_currency : Button
  democracy_cancel : ℕ → Button

-- What is signed, or nothing where the button has an error.
pub data Signed : Type 0 where
  refused undelegated voter_removed : Signed
  withdraw_unbonded : ℕ → Signed
  democracy_calls : List Call → Signed
  migrated : String → Signed

module _ (is_same : String → String → Bool) where
  abbrev pub is_connected : Option String → String → Bool
  is_connected none address = false
  is_connected (some c) address = is_same c address

  unfoldable pub sign_withdraw : Option String → Option Withdrawal → Signed
  sign_withdraw connected none = refused
  sign_withdraw connected (some w) =
      if ltb 0 w.schedule.withdrawable
      then (if is_connected connected w.signer then withdraw_unbonded w.spans else refused)
      else refused

  unfoldable pub sign_unlock : Bool → Option DemocracyPlan → Signed
  sign_unlock own none = refused
  sign_unlock own (some (delegating u)) = refused
  sign_unlock own (some (direct d)) =
      if is_nil d.remove && not d.unlock
      then refused
      else if own
      then democracy_calls (unlock_calls d)
      else refused

  abbrev pub cancels_of : Option DemocracyPlan → List Cancel
  cancels_of none = []
  cancels_of (some (delegating u)) = []
  cancels_of (some (direct d)) = d.cancel

  unfoldable pub sign_cancel : Bool → ℕ → Option DemocracyPlan → Signed
  sign_cancel own ref plan = elim (find (λ (c : Cancel). c.index == ref) (cancels_of plan)) [
    | none ↦ refused
    | some c ↦ if own then democracy_calls (remove_vote c.index ∷ []) else refused
  ]

  unfoldable pub sign_undelegate : Bool → Option DemocracyPlan → Signed
  sign_undelegate own none = refused
  sign_undelegate own (some (delegating u)) = if own then undelegated else refused
  sign_undelegate own (some (direct d)) = refused

  -- Any account can remove a lock that staking has left behind.
  unfoldable pub sign_migrate : Option String → Option Orphan → Signed
  sign_migrate connected none = refused
  sign_migrate none (some o) = refused
  sign_migrate (some c) (some o) = migrated o.stash

  unfoldable pub lock_action_spec : Button → Actions → String → Option String → Signed
  lock_action_spec withdraw a address connected = sign_withdraw connected a.withdraw
  lock_action_spec democracy_unlock a address connected =
      sign_unlock (is_connected connected address) a.democracy
  lock_action_spec (democracy_cancel ref) a address connected =
      sign_cancel (is_connected connected address) ref a.democracy
  lock_action_spec democracy_undelegate a address connected =
      sign_undelegate (is_connected connected address) a.democracy
  lock_action_spec elections_remove a address connected =
      if a.council_vote && is_connected connected address then voter_removed else refused
  lock_action_spec migrate_currency a address connected = sign_migrate connected a.orphan
