-- ===== src/Tests/Locks.antt =====
-- Runs of the releases of the balance panel, and their theorems at concrete accounts.
use pdexplorer.Prelude.{
  ℕ, zero, suc, ◌+◌, ◌≡◌, refl, true, false, none, some, List, [], ◌∷◌, str_eq, length,
}
use pdexplorer.Prelude.Sort.{IsSorted}
use pdexplorer.Wallet.LockPlan.{locked_2x, lock_periods, unlocked}
use pdexplorer.Wallet.LockActions.{
  Chunk, OwnVote, ongoing, finished, cancelled, Democracy, Height, direct_actions, scan_votes,
  scan_vote, accumulate, unbonding_schedule, nullish, era_leb, democracy_actions,
}
use pdexplorer.Wallet.LockActions.Pallet.{Voting, unlock, remove_vote}
use pdexplorer.Wallet.LockActions.Offer.{
  unlock_calls, lock_action_spec, lock_actions, Snapshot, democracy_calls, democracy_unlock,
  withdrawal_of, democracy_of, orphan_of, lock_of, sign_unlock,
}
use pdexplorer.Wallet.LockActions.Batch.{DistinctVotes}
use pdexplorer.Wallet.LockActions.Release.{Released, unlock_calls_lem}
use pdexplorer.Wallet.LockActions.Withdraw.{
  unbonding_schedule_lem, released_by, total, total_pending,
}

abbrev vote : ℕ → ℕ → OwnVote
vote index balance = record {
  index = index;
  aye = some true;
  conviction = locked_2x;
  balance = balance;
}

-- A vote that won and is still held, one that was cancelled, and one that runs; a lock of removed votes
-- that is over.
abbrev dem : Democracy
dem = record {
  delegating = false;
  conviction = unlocked;
  balance = 0;
  prior = record { until = 90; amount = 500 };
  locking_period = 10;
  votes = vote 1 100 ∷ vote 2 300 ∷ vote 3 50 ∷ [];
  find_referendum = λ i. elim i [
    | zero ↦ none
    | suc k ↦ elim k [
      | zero ↦ some (finished 95 true)
      | suc l ↦ elim l [ zero ↦ some cancelled | suc m ↦ some (ongoing 200) ]
    ]
  ];
}

abbrev at : Height
at = record { block = 100; lock_amount = some 500 }

dem-DistinctVotes : DistinctVotes dem.votes
dem-DistinctVotes = (refl, (refl, (refl, tt)))

panel :
    ((direct_actions dem at).lock_now ≡ 500)
    × ((direct_actions dem at).lock_after ≡ 100)
    × ((direct_actions dem at).locked_until ≡ some 115)
    × (unlock_calls (direct_actions dem at) ≡ unlock ∷ remove_vote 1 ∷ remove_vote 2 ∷ unlock ∷ [])
unfolding direct_actions scan_votes scan_vote accumulate unlock_calls lock_periods
panel = (refl, refl, refl, refl)

unlock_calls_lem_example : (s : Voting) × Released dem at dem-DistinctVotes s
unlock_calls_lem_example = unlock_calls_lem dem at dem-DistinctVotes

abbrev chunks : List Chunk
chunks =
    record { value = 5; era = 12 }
    ∷ record { value = 7; era = 9 }
    ∷ record { value = 1; era = 11 }
    ∷ []

abbrev snapshot : Snapshot
snapshot = record {
  address = "es1";
  locks = record { id = "democrac"; amount = 500 } ∷ [];
  staking = record {
    bonded = true;
    chunks = chunks;
    current_era = some 10;
    active_era = some 10;
    spans = 0;
    controller = none;
  };
  democracy = some dem;
  has_council_vote = false;
  block = 100;
}

signed :
    lock_action_spec str_eq democracy_unlock (lock_actions snapshot) "es1" (some "es1")
    ≡ democracy_calls (unlock ∷ remove_vote 1 ∷ remove_vote 2 ∷ unlock ∷ [])
unfolding lock_action_spec lock_actions withdrawal_of democracy_of orphan_of lock_of sign_unlock
    unlock_calls democracy_actions direct_actions scan_votes scan_vote accumulate lock_periods
signed = refl

unbonding_schedule_lem_example :
    let s = unbonding_schedule chunks none (some 10) in
    (s.withdrawable ≡ released_by (nullish none (some 10)) chunks)
    × (s.withdrawable + total_pending s.pending ≡ total chunks)
    × (s.ready_count + length s.pending ≡ length chunks)
    × IsSorted era_leb s.pending
unbonding_schedule_lem_example = unbonding_schedule_lem chunks none (some 10)
