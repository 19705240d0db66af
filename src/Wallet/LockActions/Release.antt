-- ===== src/Wallet/LockActions/Release.antt =====
-- The button "Remove votes and unlock", against the rules of the chain.
use pdexplorer.Prelude.{
  max, ◌≡◌, refl, sym, ap, ◌∙◌, ◌⊎◌, inl, inr, Bool, true, false, some, List, [], ◌∷◌, ◌++◌, leb,
  if◌then◌else◌, Bool-cases, arith,
}
use pdexplorer.Wallet.LockActions.{
  OwnVote, Lock, no_lock, rejigged, Democracy, Height, Scan, Direct, accumulate, direct_actions,
  rejigs_first,
}
use pdexplorer.Wallet.LockActions.Pallet.{
  Voting, unlock, most, unlocked_voting, dispatch, batch_all,
}
use pdexplorer.Wallet.LockActions.Offer.{unlock_calls}
use pdexplorer.Wallet.LockActions.Batch.{
  DistinctVotes, left, calls_of, scan, batch, voting, Clear, batch-append, removes_run,
  scan-ongoing_max,
}

module _ (dem : Democracy) (at : Height) (distinct : DistinctVotes dem.votes) where
  abbrev pub plan : Direct
  plan = direct_actions dem at

  abbrev writes : Scan
  writes = scan at.block dem dem.votes

  abbrev pub before : Voting
  before = voting at.block dem dem.votes dem.prior plan.lock_now

  abbrev starting : Bool → Voting
  starting rejig = if rejig then unlocked_voting at.block before else before

  -- The account after the removes.
  abbrev removed : Bool → Voting
  removed rejig =
      voting at.block dem (left dem.find_referendum dem.votes)
        (accumulate (starting rejig).prior writes.added) (starting rejig).lock

  Clear-nil : (vs : List OwnVote) → Clear at.block dem [] vs
  Clear-nil [] = tt
  Clear-nil (v ∷ vs) = (refl, Clear-nil vs)

  abbrev rejig : Bool
  rejig = rejigs_first dem at writes

  plan-parts : (plan.remove ≡ writes.remove) × (plan.rejig_first ≡ rejig)
  unfolding direct_actions
  plan-parts = (refl, refl)

  start-run :
      (r : Bool) → batch at.block dem (if r then unlock ∷ [] else []) before ≡ some (starting r)
  unfolding batch_all dispatch
  start-run true = refl
  start-run false = refl

  removes-run :
      (r : Bool) → batch at.block dem (calls_of writes.remove) (starting r) ≡ some (removed r)
  removes-run true =
      removes_run at.block dem [] dem.votes (starting true).prior (starting true).lock
        (Clear-nil dem.votes) distinct
  removes-run false =
      removes_run at.block dem [] dem.votes (starting false).prior (starting false).lock
        (Clear-nil dem.votes) distinct

  abbrev ending : Bool → Voting → Voting
  ending u s = if u then unlocked_voting at.block s else s

  end-run :
      (u : Bool) (s : Voting)
      → batch at.block dem (if u then unlock ∷ [] else []) s ≡ some (ending u s)
  unfolding batch_all dispatch
  end-run true s = refl
  end-run false s = refl

  batch-run :
      batch at.block dem (unlock_calls plan) before ≡ some (ending plan.unlock (removed rejig))
  unfolding unlock_calls direct_actions
  batch-run =
      let calls = calls_of writes.remove in
      let last = if plan.unlock then unlock ∷ [] else [] in
      batch-append at.block dem (if rejig then unlock ∷ [] else []) (calls ++ last) before
        (starting rejig) (start-run rejig)
      ∙ batch-append at.block dem calls last (starting rejig) (removed rejig) (removes-run rejig)
      ∙ end-run plan.unlock (removed rejig)

  rejig-expired : rejig ≡ true → leb dem.prior.until at.block ≡ true
  rejig-expired h = ground arith

  starting-prior : (starting rejig).prior ≡ (if rejig then no_lock else dem.prior)
  starting-prior = elim (Bool-cases rejig) [ inl e ↦ rw e (rw (rejig-expired e)) | inr e ↦ rw e ]

  -- With or without a rejig, the plan carries the lock that the removes carry.
  lock_after-chain : (unlocked_voting at.block (removed rejig)).lock ≡ plan.lock_after
  unfolding direct_actions
  lock_after-chain =
      ap
        (λ (p : Lock).
          max (most (left dem.find_referendum dem.votes))
            (rejigged at.block (accumulate p writes.added)).amount)
        starting-prior
      ∙ ap
          (λ n.
            max n
              (rejigged at.block
                (accumulate (if rejig then no_lock else dem.prior) writes.added)).amount)
          (sym (scan-ongoing_max at.block dem dem.votes))

  unlock_twice :
      (s : Voting)
      → (unlocked_voting at.block (unlocked_voting at.block s)).lock
        ≡ (unlocked_voting at.block s).lock
  unlock_twice s = ground arith

  -- What the batch leaves of the account.
  abbrev pub Released : Voting → Type 0
  Released s =
      (batch at.block dem (unlock_calls plan) before ≡ some s)
      × (s.votes ≡ left dem.find_referendum dem.votes)
      × ((unlocked_voting at.block s).lock ≡ plan.lock_after)
      × ((plan.unlock ≡ false) ⊎ (s.lock ≡ plan.lock_after))

  released : (u : Bool) → plan.unlock ≡ u → (s : Voting) × Released s
  released true e = (
    unlocked_voting at.block (removed rejig),
    (
      batch-run ∙ ap (λ u. some (ending u (removed rejig))) e,
      refl,
      unlock_twice (removed rejig) ∙ lock_after-chain,
      inr lock_after-chain,
    ),
  )
  released false e = (
    removed rejig,
    (batch-run ∙ ap (λ u. some (ending u (removed rejig))) e, refl, lock_after-chain, inl e),
  )

-- For an account that votes directly, with one vote for each referendum: the calls that the button
-- signs all succeed on the chain, remove just the votes in finished and cancelled referenda, and leave
-- the lock that the panel names, if they end in an unlock; where they do not, an unlock would leave
-- the lock that the panel names.
pub unlock_calls_lem :
    (dem : Democracy) (at : Height) (distinct : DistinctVotes dem.votes)
    → (s : Voting) × Released dem at distinct s
unlock_calls_lem dem at distinct = released dem at distinct (direct_actions dem at).unlock refl
