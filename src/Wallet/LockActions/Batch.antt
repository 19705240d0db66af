-- ===== src/Wallet/LockActions/Batch.antt =====
-- What the calls of the panel do on the chain.
use mathlib.Core.List.{append_assoc}
use pdexplorer.Prelude.{
  ℕ, max, ◌≡◌, refl, sym, ap, ◌∙◌, inl, inr, Bool, true, false, Option, none, some, List, [], ◌∷◌,
  ◌++◌, map, ◌==◌, All, is_nil, if◌then◌else◌, Bool-cases, Option-cases, arith,
}
use pdexplorer.Wallet.LockActions.{
  OwnVote, RefInfo, ongoing, finished, cancelled, Lock, Democracy, Removal, Scan, scan_vote,
  scan_votes, accumulate,
}
use pdexplorer.Wallet.LockActions.Pallet.{
  Voting, Call, remove_vote, most, find_vote, without, prior_after, dispatch, batch_all,
}

-- The index of a vote is that of none of the votes.
abbrev pub Absent : ℕ → List OwnVote → Type 0
Absent i vs = find_vote i vs ≡ none

abbrev pub DistinctVotes : List OwnVote → Type 0
DistinctVotes [] = Unit
DistinctVotes (v ∷ vs) = Absent v.index vs × DistinctVotes vs

find_vote-append :
    (i : ℕ) (kept : List OwnVote) (v : OwnVote) (vs : List OwnVote)
    → Absent i kept
    → v.index ≡ i
    → find_vote i (kept ++ (v ∷ vs)) ≡ some v
find_vote-append i [] v vs h e = ground arith
find_vote-append i (k ∷ ks) v vs h e = ground (arith, find_vote-append i ks v vs)

without-append :
    (i : ℕ) (kept : List OwnVote) (v : OwnVote) (vs : List OwnVote)
    → Absent i kept
    → v.index ≡ i
    → without i (kept ++ (v ∷ vs)) ≡ kept ++ vs
without-append i [] v vs h e = ground arith
without-append i (k ∷ ks) v vs h e = ground (arith, without-append i ks v vs)

most-append : (xs ys : List OwnVote) → most (xs ++ ys) ≡ max (most xs) (most ys)
most-append [] ys = omega arith
most-append (x ∷ xs) ys = omega (arith, most-append xs ys)

abbrev pub calls_of : List Removal → List Call
calls_of rs = map (λ (r : Removal). remove_vote r.index) rs

-- A vote that the panel does not remove.
abbrev pub stays : Option RefInfo → Bool
stays none = true
stays (some (ongoing end_block)) = true
stays (some (finished end_block approved)) = false
stays (some cancelled) = false

abbrev pub left : (ℕ → Option RefInfo) → List OwnVote → List OwnVote
left info [] = []
left info (v ∷ vs) = if stays (info v.index) then v ∷ left info vs else left info vs

module _ (block period : ℕ) (v : OwnVote) (rest : Scan) where
  scan_vote-remove :
      (o : Option RefInfo)
      → calls_of (scan_vote block period v o rest).remove
        ≡ (if stays o then calls_of rest.remove else remove_vote v.index ∷ calls_of rest.remove)
  unfolding scan_vote
  scan_vote-remove none = refl
  scan_vote-remove (some (ongoing e)) = refl
  scan_vote-remove (some (finished e approved)) = ground arith
  scan_vote-remove (some cancelled) = refl

  scan_vote-added :
      (o : Option RefInfo) (p : Lock)
      → accumulate p (scan_vote block period v o rest).added
        ≡ accumulate (prior_after block period v o p) rest.added
  unfolding scan_vote accumulate
  scan_vote-added none p = refl
  scan_vote-added (some (ongoing e)) p = refl
  scan_vote-added (some (finished e approved)) p = ground arith
  scan_vote-added (some cancelled) p = refl

  scan_vote-ongoing_max :
      (o : Option RefInfo)
      → (scan_vote block period v o rest).ongoing_max
        ≡ (if stays o then max v.balance rest.ongoing_max else rest.ongoing_max)
  unfolding scan_vote
  scan_vote-ongoing_max none = refl
  scan_vote-ongoing_max (some (ongoing e)) = refl
  scan_vote-ongoing_max (some (finished e approved)) = ground arith
  scan_vote-ongoing_max (some cancelled) = refl

  scan_vote-votes_max :
      (o : Option RefInfo)
      → (scan_vote block period v o rest).votes_max ≡ max v.balance rest.votes_max
  unfolding scan_vote
  scan_vote-votes_max none = refl
  scan_vote-votes_max (some (ongoing e)) = refl
  scan_vote-votes_max (some (finished e approved)) = ground arith
  scan_vote-votes_max (some cancelled) = refl

  -- No vote, no removal: what is removed next is found and taken, and its lock carried.
  scan_vote-nil :
      (o : Option RefInfo)
      → is_nil (scan_vote block period v o rest).added ≡ false
      → is_nil (scan_vote block period v o rest).remove ≡ true
      → is_nil rest.added ≡ false
  unfolding scan_vote
  scan_vote-nil none h k = h
  scan_vote-nil (some (ongoing e)) h k = h
  scan_vote-nil (some (finished e approved)) h k = ground arith
  scan_vote-nil (some cancelled) h k = h

Absent-keep :
    (i : ℕ) (kept : List OwnVote) (v : OwnVote)
    → Absent i kept
    → (v.index == i) ≡ false
    → Absent i (kept ++ (v ∷ []))
Absent-keep i [] v a h = ground arith
Absent-keep i (k ∷ ks) v a h = ground (arith, Absent-keep i ks v)

stays-prior :
    (block period : ℕ) (v : OwnVote) (o : Option RefInfo) (p : Lock)
    → stays o ≡ true
    → prior_after block period v o p ≡ p
stays-prior block period v none p h = refl
stays-prior block period v (some (ongoing e)) p h = refl
stays-prior block period v (some (finished e approved)) p h = absurd (ground arith)
stays-prior block period v (some cancelled) p h = absurd (ground arith)

module _ (block : ℕ) (dem : Democracy) where
  abbrev pub info : ℕ → Option RefInfo
  info = dem.find_referendum

  abbrev pub scan : List OwnVote → Scan
  scan vs = scan_votes block dem vs

  pub scan-ongoing_max : (vs : List OwnVote) → (scan vs).ongoing_max ≡ most (left info vs)
  unfolding scan_votes
  scan-ongoing_max [] = refl
  scan-ongoing_max (v ∷ vs) = ground (
    arith,
    scan_vote-ongoing_max block dem.locking_period v (scan vs) (info v.index),
    scan-ongoing_max vs,
  )

  pub scan-votes_max : (vs : List OwnVote) → (scan vs).votes_max ≡ most vs
  unfolding scan_votes
  scan-votes_max [] = refl
  scan-votes_max (v ∷ vs) = ground (
    arith,
    scan_vote-votes_max block dem.locking_period v (scan vs) (info v.index),
    scan-votes_max vs,
  )

  abbrev pub batch : List Call → Voting → Option Voting
  batch cs s = batch_all block dem.locking_period info cs s

  abbrev pub voting : List OwnVote → Lock → ℕ → Voting
  voting votes prior lock = record { votes = votes; prior = prior; lock = lock }

  abbrev pub Clear : List OwnVote → List OwnVote → Type 0
  Clear kept vs = All (λ (v : OwnVote). Absent v.index kept) vs

  Clear-keep :
      (kept : List OwnVote) (v : OwnVote) (vs : List OwnVote)
      → Absent v.index vs
      → Clear kept vs
      → Clear (kept ++ (v ∷ [])) vs
  Clear-keep kept v [] a c = tt
  Clear-keep kept v (w ∷ ws) a c =
      (Absent-keep w.index kept v c.0 (ground arith), Clear-keep kept v ws (ground arith) c.1)

  batch-next :
      (call : Call) (cs : List Call) (s s' : Voting)
      → dispatch block dem.locking_period info call s ≡ some s'
      → batch (call ∷ cs) s ≡ batch cs s'
  unfolding batch_all
  batch-next call cs s s' h = rw (h, batch_all)

  pub batch-append :
      (xs ys : List Call) (s s' : Voting) → batch xs s ≡ some s' → batch (xs ++ ys) s ≡ batch ys s'
  unfolding batch_all
  batch-append [] ys s s' h = ground arith
  batch-append (x ∷ xs) ys s s' h =
      elim (Option-cases (dispatch block dem.locking_period info x s)) [
        | inl e ↦ absurd (ground (arith, e))
        | inr (s1, e) ↦
            batch-next x (xs ++ ys) s s1 e
            ∙ batch-append xs ys s1 s' (sym (batch-next x xs s s1 e) ∙ h)
      ]

  -- A vote that is removed is found, taken out, and its lock carried.
  remove-dispatch :
      (kept : List OwnVote) (v : OwnVote) (vs : List OwnVote) (p : Lock) (lock : ℕ)
      → Absent v.index kept
      → dispatch block dem.locking_period info
          (remove_vote v.index)
          (voting (kept ++ (v ∷ vs)) p lock)
        ≡ some (voting (kept ++ vs) (prior_after block dem.locking_period v (info v.index) p) lock)
  unfolding dispatch
  remove-dispatch kept v vs p lock a =
      rw (find_vote-append v.index kept v vs a refl, dispatch)
        (rw (without-append v.index kept v vs a refl))

  pub removes_run :
      (kept vs : List OwnVote) (p : Lock) (lock : ℕ)
      → Clear kept vs
      → DistinctVotes vs
      → batch (calls_of (scan vs).remove) (voting (kept ++ vs) p lock)
        ≡ some (voting (kept ++ left info vs) (accumulate p (scan vs).added) lock)
  unfolding scan_votes batch_all accumulate
  removes_run kept [] p lock c d = refl
  removes_run kept (v ∷ vs) p lock c d =
      rw (scan_vote-remove block dem.locking_period v (scan vs) (info v.index)) (
        rw (scan_vote-added block dem.locking_period v (scan vs) (info v.index) p)
          (elim (Bool-cases (stays (info v.index))) [
            | inl e ↦
                let shift : (kept ++ (v ∷ [])) ++ vs ≡ kept ++ (v ∷ vs) =
                  append_assoc kept (v ∷ []) vs in
                rw (e, stays-prior block dem.locking_period v (info v.index) p e)
                  (ap (λ us. batch (calls_of (scan vs).remove) (voting us p lock)) (sym shift)
                    ∙ removes_run (kept ++ (v ∷ [])) vs p lock (Clear-keep kept v vs d.0 c.1) d.1
                    ∙ ap (λ us. some (voting us (accumulate p (scan vs).added) lock))
                        (append_assoc kept (v ∷ []) (left info vs)))
            | inr e ↦
                let p' = prior_after block dem.locking_period v (info v.index) p in
                rw e (
                  batch-next (remove_vote v.index) (calls_of (scan vs).remove)
                    (voting (kept ++ (v ∷ vs)) p lock) (voting (kept ++ vs) p' lock)
                    (remove-dispatch kept v vs p lock c.0)
                  ∙ removes_run kept vs p' lock c.1 d.1)
          ]))
