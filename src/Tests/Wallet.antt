-- ===== src/Tests/Wallet.antt =====
-- Runs of the fees, the locks and the session of the wallet, and of a submission.
use pdexplorer.Prelude.{
  ℕ, ◌+◌, ◌*◌, ◌^◌, ◌≤◌, ◌<◌, ◌≡◌, refl, ◌↔◌, ◌⊎◌, true, false, none, some, List, [], ◌∷◌, All,
  arith, ◌==◌, if◌then◌else◌,
}
use pdexplorer.Wallet.Fees.{
  Charge, fee_shortfall, Balances, Shortfall, fee_needs, amount_needs, fee_floor,
}
use pdexplorer.Wallet.Fees.Payable.{
  PaysFee, PaysAmount, fee_shortfall-none, topped_up, top_up_enough,
}
use pdexplorer.Wallet.LockPlan.{locked_2x, Vote, Referendum, Democracy, democracy_lock_plan}
use pdexplorer.Wallet.LockPlan.Unlock.{Released, IsCancelled, can_unlock_now_iff}
use pdexplorer.Wallet.TxStep.{
  ready, included_in, retracted, dropped_out, Track, initial_tx_track, TxEvent, status, outcome,
  disconnected, tx_step, fail, track_after, successes, on_event, on_stage, stage_of,
}
use pdexplorer.Wallet.LiveRuntime.{
  follow_from, FollowEvent, version, answered, stop, follow_runtime_version,
}
use pdexplorer.Wallet.LiveRuntime.Follow.{unsubscribes_once}
use pdexplorer.Wallet.TxStep.Once.{successes_once, tx_step-fail, Reversal}

-- An account that holds less than the deposit, and is asked for a fee.
abbrev poor : Charge
poor = record {
  fee = 30;
  amount = 0;
  keep_alive = true;
  free = 40;
  reserved = 0;
  frozen = 0;
  ed = 100;
}

fee_shortfall-none_example :
    (fee_shortfall poor ≡ none) ↔ (PaysFee poor × ((◌≡◌ {A = ℕ} 0 0) ⊎ PaysAmount poor))
fee_shortfall-none_example = fee_shortfall-none poor

-- An account below the deposit, short by 20: with the top-up named it holds the deposit, and needs more.
abbrev misled : Charge
misled = record {
  fee = 30;
  amount = 0;
  keep_alive = true;
  free = 90;
  reserved = 80;
  frozen = 80;
  ed = 100;
}

abbrev misled_by : Shortfall
misled_by = record {
  needed = 110;
  short_free = 90;
  short_reserved = 80;
  locked = 80;
  short_amount = 0;
  short_fee = 30;
  top_up = 20;
  never_included = false;
}

misled_short : fee_shortfall misled ≡ some misled_by
unfolding fee_shortfall fee_needs amount_needs fee_floor
misled_short = refl

top_up_enough_example :
    (fee_shortfall (topped_up 20 misled) ≡ none) ↔ ((100 ≤ 90) ⊎ ((110 < 100) ⊎ (30 + 100 ≤ 110)))
top_up_enough_example = top_up_enough misled misled_by misled_short

abbrev purse : Balances
purse = record { bal_free = 10 ^ 12; bal_reserved = 0; bal_frozen = 3 * 10 ^ 11; bal_ed = 10 ^ 10 }

abbrev vote : Vote
vote = record { index = 4; aye = some true; conviction = locked_2x }

abbrev ended : Referendum
ended = record { is_ongoing = false; is_finished = true; approved = true; end_block = 100 }

abbrev ballot : Democracy
ballot = record {
  delegating = false;
  prior_until = 0;
  locking_period = 50;
  votes = vote ∷ [];
  find_referendum = λ i. if i == 4 then some ended else none;
}

can_unlock_now_iff_example : ((democracy_lock_plan (some ballot) 200).can_unlock_now ≡ true) ↔ (
    (false ≡ false)
    × (0 ≤ 200)
    × All
        (λ v.
          Released 50 200 v (ballot.find_referendum v.index)
          × (¬ IsCancelled (ballot.find_referendum v.index)))
        (vote ∷ []))
can_unlock_now_iff_example = can_unlock_now_iff ballot 200

-- In a block, out of it again, and in a block once more.
abbrev bumpy : List TxEvent
bumpy =
    status ready
    ∷ status included_in
    ∷ outcome true false
    ∷ status retracted
    ∷ status included_in
    ∷ outcome true false
    ∷ disconnected true
    ∷ []

successes_once_example :
    (successes initial_tx_track bumpy
      ≡ (if (track_after initial_tx_track bumpy).in_block_seen then 1 else 0))
    × (successes initial_tx_track bumpy ≤ 1)
successes_once_example = successes_once bumpy

abbrev seen : Track
seen = record initial_tx_track { in_block_seen = true }

dropped_fails : (tx_step seen (status dropped_out)).act ≡ fail
unfolding tx_step on_event on_stage stage_of
dropped_fails = refl

tx_step-fail_example : Reversal (status dropped_out)
tx_step-fail_example = tx_step-fail seen (status dropped_out) refl dropped_fails

-- Stopped before the node answers.
abbrev early_stop : List FollowEvent
early_stop = version (some 392) ∷ stop ∷ answered true ∷ version (some 393) ∷ []

unsubscribes_once_example :
    ((follow_runtime_version (follow_from none) early_stop).held ≡ false)
    × ((follow_runtime_version (follow_from none) early_stop).unsubscribed ≡ 1)
unsubscribes_once_example = unsubscribes_once none early_stop (omega arith) refl
