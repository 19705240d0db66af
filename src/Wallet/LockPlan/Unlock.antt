-- ===== src/Wallet/LockPlan/Unlock.antt =====
-- When the plan says that the lock of a vote can come off.
use pdexplorer.Prelude.{
  ℕ, zero, suc, ◌+◌, ◌*◌, ◌^◌, ◌≤◌, ◌≡◌, refl, ◌⊎◌, ◌↔◌, inl, inr, true, false, Bool-cases, Option,
  none, some, List, [], ◌∷◌, All, arith, any,
}
use pdexplorer.Wallet.LockPlan.{
  Conviction, unlocked, locked_1x, locked_2x, locked_3x, locked_4x, locked_5x, locked_6x,
  lock_periods, Vote, Referendum, Democracy, Scan, won, vote_unlock_at, scan_vote, scan_votes,
  is_unknown, democracy_lock_plan,
}

-- The rank of a conviction.
abbrev pub rank : Conviction → ℕ
rank unlocked = 0
rank locked_1x = 1
rank locked_2x = 2
rank locked_3x = 3
rank locked_4x = 4
rank locked_5x = 5
rank locked_6x = 6

-- The rule of the chain: no period without a conviction, else one that doubles with each rank.
abbrev pub chain_periods : Conviction → ℕ
chain_periods c = elim (rank c) [ zero ↦ 0 | suc k ↦ 2 ^ k ]

lock_periods-chain : (c : Conviction) → lock_periods c ≡ chain_periods c
unfolding lock_periods
lock_periods-chain unlocked = refl
lock_periods-chain locked_1x = refl
lock_periods-chain locked_2x = refl
lock_periods-chain locked_3x = refl
lock_periods-chain locked_4x = refl
lock_periods-chain locked_5x = refl
lock_periods-chain locked_6x = refl

-- The vote stood on the side that the referendum took.
abbrev pub OnWinningSide : Vote → Referendum → Type 0
OnWinningSide v info = v.aye ≡ some info.approved

-- What is read of a referendum without info: neither ongoing nor finished.
abbrev pub IsCancelled : Option Referendum → Type 0
IsCancelled none = ⊥
IsCancelled (some info) = (info.is_ongoing ≡ false) × (info.is_finished ≡ false)

-- The rule of the chain, for a vote that keeps no lock at the height: its referendum is known and not
-- ongoing, and where it was not cancelled it is over, and where the vote won its periods are over too.
abbrev pub Released : ℕ → ℕ → Vote → Option Referendum → Type 0
Released period now v none = ⊥
Released period now v (some info) =
    (info.is_ongoing ≡ false)
    × (IsCancelled (some info)
        ⊎ ((info.end_block ≤ now)
            × (¬ OnWinningSide v info
                ⊎ (info.end_block + chain_periods v.conviction * period ≤ now))))

abbrev Quiet : ℕ → Scan → Type 0
Quiet now s = (s.any_ongoing ≡ false) × (any is_unknown s.rows ≡ false) × (s.latest ≤ now)

won_iff : (v : Vote) (info : Referendum) → (won v.aye info ≡ true) ↔ OnWinningSide v info
unfolding won
won_iff v info = ground arith

vote_unlock_at_iff :
    (period now : ℕ) (v : Vote) (info : Referendum)
    → (vote_unlock_at period v info ≤ now) ↔ (
        (info.end_block ≤ now)
        × (¬ OnWinningSide v info ⊎ (info.end_block + chain_periods v.conviction * period ≤ now)))
unfolding vote_unlock_at
vote_unlock_at_iff period now v info =
    let (to, from) = won_iff v info in
    let same = lock_periods-chain v.conviction in
    elim (Bool-cases (won v.aye info)) [
      | inl e ↦
          rw (e, same)
            (
              (λ h. (omega arith, inr h)),
              (λ (a, b). elim b [ inl n ↦ absurd (n (to e)) | inr k ↦ k ]),
            )
      | inr e ↦
          rw e ((λ h. (omega arith, inl (λ w. ground (arith, from w, e)))), (λ (a, b). omega arith))
    ]

scan_vote-Quiet :
    (period now : ℕ) (v : Vote) (o : Option Referendum) (s : Scan)
    → Quiet now (scan_vote period v o s)
      ↔ ((Released period now v o × (¬ IsCancelled o)) × Quiet now s)
unfolding scan_vote
scan_vote-Quiet period now v none s = ground arith
scan_vote-Quiet period now v (some info) s = ground (arith, vote_unlock_at_iff period now v info)

scan_votes-Quiet :
    (dem : Democracy) (now : ℕ) (vs : List Vote)
    → Quiet now (scan_votes dem vs) ↔ (
        (dem.prior_until ≤ now)
        × All
            (λ v.
              Released dem.locking_period now v (dem.find_referendum v.index)
              × (¬ IsCancelled (dem.find_referendum v.index)))
            vs)
unfolding scan_votes
scan_votes-Quiet dem now [] = ground arith
scan_votes-Quiet dem now (v ∷ vs) = ground (
  arith,
  scan_votes-Quiet dem now vs,
  scan_vote-Quiet dem.locking_period now v (dem.find_referendum v.index) (scan_votes dem vs),
)

-- For an account with votes, the plan says that the lock can come off exactly where the account does
-- not delegate, the lock kept from removed votes is over, each vote is released by the rule of the
-- chain, and none stands in a cancelled referendum, which the chain would release at once.
pub can_unlock_now_iff :
    (dem : Democracy) (now : ℕ)
    → ((democracy_lock_plan (some dem) now).can_unlock_now ≡ true) ↔ (
        (dem.delegating ≡ false)
        × (dem.prior_until ≤ now)
        × All
            (λ v.
              Released dem.locking_period now v (dem.find_referendum v.index)
              × (¬ IsCancelled (dem.find_referendum v.index)))
            dem.votes)
unfolding democracy_lock_plan
can_unlock_now_iff dem now = ground (arith, scan_votes-Quiet dem now dem.votes)
