-- ===== src/Wallet/LockActions/Pallet.antt =====
-- The rules of pallet-democracy that lib/lock-actions.js names, apart from its code: what the calls
-- `unlock` and `remove_vote` do to an account that votes directly, at one height.
use pdexplorer.Prelude.{
  ℕ, ◌+◌, ◌*◌, max, Bool, true, false, Option, none, some, List, [], ◌∷◌, ltb, ◌==◌, if◌then◌else◌,
}
use pdexplorer.Wallet.LockPlan.{lock_periods}
use pdexplorer.Wallet.LockActions.{OwnVote, RefInfo, ongoing, finished, cancelled, Lock, rejigged}

-- The recorded votes, the lock kept from removed ones, and the lock that is set on the balance.
pub record Voting : Type 0 where
  pub votes : List OwnVote
  pub prior : Lock
  pub lock : ℕ

pub data Call : Type 0 where
  unlock : Call
  remove_vote : ℕ → Call

-- The greatest recorded vote.
abbrev pub most : List OwnVote → ℕ
most [] = 0
most (v ∷ vs) = max v.balance (most vs)

abbrev pub find_vote : ℕ → List OwnVote → Option OwnVote
find_vote i [] = none
find_vote i (v ∷ vs) = if v.index == i then some v else find_vote i vs

abbrev pub without : ℕ → List OwnVote → List OwnVote
without i [] = []
without i (v ∷ vs) = if v.index == i then vs else v ∷ without i vs

-- A vote is held for its periods by a referendum that went its way.
abbrev pub is_held : Option Bool → Bool → Bool
is_held none approved = false
is_held (some true) approved = approved
is_held (some false) true = false
is_held (some false) false = true

-- `PriorLock::accumulate`
abbrev pub carried : ℕ → ℕ → Lock → Lock
carried until amount p = record { until = max p.until until; amount = max p.amount amount }

abbrev pub prior_after : ℕ → ℕ → OwnVote → Option RefInfo → Lock → Lock
prior_after now period v (some (finished end_block approved)) p =
    let unlock_at = end_block + lock_periods v.conviction * period in
    if is_held v.aye approved
    then (if ltb now unlock_at then carried unlock_at v.balance p else p)
    else p
prior_after now period v (some (ongoing end_block)) p = p
prior_after now period v (some cancelled) p = p
prior_after now period v none p = p

abbrev pub unlocked_voting : ℕ → Voting → Voting
unlocked_voting now s =
    let p = rejigged now s.prior in
    record { votes = s.votes; prior = p; lock = max (most s.votes) p.amount }

-- At a height, over what the chain has of each referendum; a vote that is not recorded is an error.
module _ (now period : ℕ) (info : ℕ → Option RefInfo) where
  unfoldable pub dispatch : Call → Voting → Option Voting
  dispatch unlock s = some (unlocked_voting now s)
  dispatch (remove_vote i) s = elim (find_vote i s.votes) [
    | none ↦ none
    | some v ↦
        some (record s {
          votes = without i s.votes;
          prior = prior_after now period v (info i) s.prior;
        })
  ]

  -- `batch_all`: the first error undoes all.
  unfoldable pub batch_all : List Call → Voting → Option Voting
  batch_all [] s = some s
  batch_all (c ∷ cs) s = elim (dispatch c s) [ none ↦ none | some s' ↦ batch_all cs s' ]
