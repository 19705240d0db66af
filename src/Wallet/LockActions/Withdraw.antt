-- ===== src/Wallet/LockActions/Withdraw.antt =====
-- What the panel offers to withdraw.
use pdexplorer.Prelude.{
  ℕ, ◌+◌, ◌≡◌, refl, true, false, Option, List, [], ◌∷◌, length, if◌then◌else◌, arith,
}
use pdexplorer.Prelude.Sort.{sort_by, insert_by, IsSorted, sort_by-IsSorted, length-sort_by}
use pdexplorer.Wallet.LockActions.{
  Chunk, Pending, nullish, is_ready, scan_chunks, era_leb, unbonding_schedule,
}

-- The amounts of the chunks that an era releases, and of all.
abbrev pub released_by : Option ℕ → List Chunk → ℕ
released_by era [] = 0
released_by era (c ∷ cs) = (if is_ready era c then c.value else 0) + released_by era cs

abbrev pub total : List Chunk → ℕ
total [] = 0
total (c ∷ cs) = c.value + total cs

abbrev pub total_pending : List Pending → ℕ
total_pending [] = 0
total_pending (p ∷ ps) = p.value + total_pending ps

module _ (era : Option ℕ) where
  scan-withdrawable : (cs : List Chunk) → (scan_chunks era cs).withdrawable ≡ released_by era cs
  unfolding scan_chunks
  scan-withdrawable [] = refl
  scan-withdrawable (c ∷ cs) = ground (arith, scan-withdrawable cs)

  scan-total :
      (cs : List Chunk)
      → (scan_chunks era cs).withdrawable + total_pending (scan_chunks era cs).pending ≡ total cs
  unfolding scan_chunks
  scan-total [] = refl
  scan-total (c ∷ cs) = ground (arith, scan-total cs)

  scan-count :
      (cs : List Chunk)
      → (scan_chunks era cs).ready_count + length (scan_chunks era cs).pending ≡ length cs
  unfolding scan_chunks
  scan-count [] = refl
  scan-count (c ∷ cs) = ground (arith, scan-count cs)

insert-total :
    (p : Pending) (ps : List Pending)
    → total_pending (insert_by era_leb p ps) ≡ p.value + total_pending ps
insert-total p [] = refl
insert-total p (q ∷ qs) = ground (arith, insert-total p qs)

sort-total : (ps : List Pending) → total_pending (sort_by era_leb ps) ≡ total_pending ps
sort-total [] = refl
sort-total (p ∷ ps) = omega (arith, insert-total p (sort_by era_leb ps), sort-total ps)

era-total : (x y : Pending) → era_leb x y ≡ false → era_leb y x ≡ true
era-total x y h = ground arith

era_trans : (x y z : Pending) → era_leb x y ≡ true → era_leb y z ≡ true → era_leb x z ≡ true
era_trans x y z h k = ground arith

-- Whichever eras were read: what can be withdrawn is the sum of the chunks whose era has come by the
-- current era, or by the active one where the current one was not read; with the chunks that are
-- pending it makes up all that is unbonding, chunk for chunk; and the pending ones come by their eras.
pub unbonding_schedule_lem :
    (cs : List Chunk) (current active : Option ℕ)
    → let s = unbonding_schedule cs current active in
      (s.withdrawable ≡ released_by (nullish current active) cs)
      × (s.withdrawable + total_pending s.pending ≡ total cs)
      × (s.ready_count + length s.pending ≡ length cs)
      × IsSorted era_leb s.pending
unfolding unbonding_schedule
unbonding_schedule_lem cs current active =
    let s = scan_chunks (nullish current active) cs in
    (
      scan-withdrawable (nullish current active) cs,
      omega (arith, sort-total s.pending, scan-total (nullish current active) cs),
      omega (arith, length-sort_by era_leb s.pending, scan-count (nullish current active) cs),
      sort_by-IsSorted era_leb era-total era_trans s.pending,
    )
