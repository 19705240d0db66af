-- ===== src/Tests/Outcome.antt =====
-- Runs of what the events of a block say, and of what a stash is owed.
use pdexplorer.Prelude.{
  ◌+◌, ◌^◌, ◌≤◌, ◌<◌, ◌≡◌, refl, ◌↔◌, ◌⊎◌, true, false, none, some, [], ◌∷◌, String, any, arith,
}
use pdexplorer.Wallet.Outcome.{
  ChainEvent, result_err, bad_origin, is_collective, kind_of, tone_ok, evaluate_events, gather_all,
  nothing,
}
use pdexplorer.Wallet.Outcome.Clean.{carries, is_failure, evaluate_events_clean}
use pdexplorer.Rewards.Unclaimed.{
  Exposure, paged, Era, Row, payout, available, stake_of, stake_on, distinct, merge_unclaimed,
}
use pdexplorer.Rewards.Unclaimed.Shares.{sum_payouts, sum_stakes, payouts_fit}

-- A motion that was closed, and whose call failed.
abbrev motion_failed : ChainEvent
motion_failed = record {
  section = "council";
  method = "Executed";
  error = none;
  number_0 = 0;
  text_0 = none;
  text_1 = none;
  result = some (result_err bad_origin);
}

carried : carries (kind_of motion_failed) motion_failed ≡ true
unfolding kind_of is_collective
carried = refl

evaluate_events_clean_example :
    (((evaluate_events (motion_failed ∷ []) "council.close").tone ≡ tone_ok)
      ↔ (any (λ e. is_failure (kind_of e) e) (motion_failed ∷ []) ≡ false))
    × (((evaluate_events (motion_failed ∷ []) "council.close").is_ok ≡ false)
        ⊎ (((evaluate_events (motion_failed ∷ []) "council.close").tone ≡ tone_ok)
            ⊎ ((◌≡◌ {A = String} "council.close" "staking.payout")
                × (0 < (gather_all nothing (motion_failed ∷ [])).completed_items))))
evaluate_events_clean_example =
    evaluate_events_clean (motion_failed ∷ []) "council.close" (carried, tt)

abbrev exposure : Exposure
exposure = record {
  total = 100;
  own = 40;
  pages =
      record {
        page = 0;
        page_total = 100;
        others = record { who = "bob"; value = 33 } ∷ record { who = "eve"; value = 27 } ∷ [];
      }
      ∷ [];
  exposure_source = paged;
}

abbrev era : Era
era = record {
  reward = 1000;
  total_points = 7;
  points_of = λ v. 3;
  commission_of = λ v. 10 ^ 8;
  is_page_claimed = λ v p s. false;
}

stakes_fit : exposure.own + sum_stakes "val" exposure ("bob" ∷ "eve" ∷ []) ≤ exposure.total
unfolding stake_of stake_on
stakes_fit = omega arith

payouts_fit_example :
    payout era "val" "val" exposure + sum_payouts era "val" exposure ("bob" ∷ "eve" ∷ [])
    ≤ available era "val"
payouts_fit_example =
    payouts_fit era "val" exposure ("bob" ∷ "eve" ∷ []) (omega arith) (refl, (refl, tt)) stakes_fit

abbrev stored : Row
stored = record { row_era = 5; row_validator = "val"; row_amount = 9 }

abbrev fresh : Row
fresh = record { row_era = 6; row_validator = "val"; row_amount = 4 }

kept_stored : merge_unclaimed (stored ∷ []) (fresh ∷ []) (5 ∷ []) 2 ≡ some (stored ∷ fresh ∷ [])
unfolding merge_unclaimed distinct
kept_stored = refl
