-- ===== src/Tests/Payouts.antt =====
-- Runs of the reconciliation of rewards.
use pdexplorer.Prelude.{refl, ◌≢◌, inl, List, [], ◌∷◌, In}
use pdexplorer.Prelude.Int.{pos}
use pdexplorer.Prelude.Js.{int}
use pdexplorer.Prelude.Text.{codes}
use pdexplorer.Rewards.Dedup.{Reward, filter_unclaimed, build_claimed_index, summarize_rewards}
use pdexplorer.Rewards.Dedup.Reconcile.{summarize_rewards_disjoint}

abbrev alice : Reward
alice = record { era = int (pos 8); validator = codes "alice"; amount = int (pos 30) }

abbrev bob : Reward
bob = record { era = int (pos 8); validator = codes "bob"; amount = int (pos 12) }

abbrev claimed : List Reward
claimed = alice ∷ []

abbrev cached : List Reward
cached = bob ∷ alice ∷ []

bob-In : In bob (summarize_rewards claimed cached).unclaimed
unfolding summarize_rewards filter_unclaimed build_claimed_index
bob-In = inl refl

summarize_rewards_disjoint_example : (alice.validator ≢ []) × (alice.validator ≢ bob.validator)
summarize_rewards_disjoint_example =
    summarize_rewards_disjoint claimed cached alice bob (pos 8) (inl refl) bob-In refl refl

alice-In : In alice (summarize_rewards claimed cached).suppressed_rows
unfolding summarize_rewards filter_unclaimed build_claimed_index
alice-In = inl refl
