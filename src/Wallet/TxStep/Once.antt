-- ===== src/Wallet/TxStep/Once.antt =====
-- How often a submission succeeds and ends, along every sequence of events.
use pdexplorer.Prelude.{
  ℕ, ◌+◌, ◌≤◌, Bool, true, false, ◌≡◌, ◌∙◌, sym, ap, List, [], ◌∷◌, arith, if◌then◌else◌,
}
use pdexplorer.Wallet.TxStep.{
  Stage, broadcast, in_block, finalized, failed, stage_of, Track, initial_tx_track, TxEvent, status,
  outcome, disconnected, check, read_error, signing_cap, thrown, pre_cap, finality_cap,
  found_applied, found_processed, found_pending, ignore, fail, Step, out, on_stage, on_outcome,
  on_disconnect, on_event, is_timeout, tx_step, succeeds, track_after, successes,
}

abbrev count : Bool → ℕ
count b = if b then 1 else 0

-- A step succeeds exactly where it sees the transaction in a block for the first time.
abbrev Counts : Track → Step → Type 0
Counts t r = count (succeeds r) + count t.in_block_seen ≡ count r.state.in_block_seen

on_stage-Counts : (st : Stage) (b : Bool) (t : Track) → Counts t (on_stage st b t)
unfolding on_stage
on_stage-Counts broadcast b t = ground arith
on_stage-Counts failed b t = ground arith
on_stage-Counts in_block b t = ground arith
on_stage-Counts finalized b t = ground arith

on_outcome-Counts : (good final : Bool) (t : Track) → Counts t (on_outcome good final t)
unfolding on_outcome
on_outcome-Counts good final t = ground arith

on_event-Counts : (ev : TxEvent) (t : Track) → Counts t (on_event ev t)
unfolding on_event on_disconnect
on_event-Counts (status s) t = on_stage-Counts (stage_of s) (is_timeout s) t
on_event-Counts (outcome good final) t = on_outcome-Counts good final t
on_event-Counts (disconnected c) t = ground arith
on_event-Counts (check found_applied) t = ground arith
on_event-Counts (check found_processed) t = ground arith
on_event-Counts (check found_pending) t = ground arith
on_event-Counts read_error t = ground arith
on_event-Counts signing_cap t = ground arith
on_event-Counts thrown t = ground arith
on_event-Counts pre_cap t = ground arith
on_event-Counts finality_cap t = ground arith

guard-Counts :
    (b : Bool) (t : Track) (r : Step) → Counts t r → Counts t (if b then out ignore t else r)
guard-Counts true t r h = omega arith
guard-Counts false t r h = h

tx_step-Counts : (t : Track) (ev : TxEvent) → Counts t (tx_step t ev)
unfolding tx_step
tx_step-Counts t ev = guard-Counts t.done t (on_event ev t) (on_event-Counts ev t)

successes_from :
    (t : Track) (evs : List TxEvent)
    → successes t evs + count t.in_block_seen ≡ count (track_after t evs).in_block_seen
successes_from t [] = omega arith
successes_from t (ev ∷ evs) =
    omega (arith, tx_step-Counts t ev, successes_from (tx_step t ev).state evs)

count_le : (b : Bool) → count b ≤ 1
count_le true = omega arith
count_le false = omega arith

-- Along every sequence of events, `onSuccess` runs once where the transaction is seen in a block, and
-- not at all where it is not: at most once.
pub successes_once :
    (evs : List TxEvent)
    → (successes initial_tx_track evs ≡ count (track_after initial_tx_track evs).in_block_seen)
      × (successes initial_tx_track evs ≤ 1)
successes_once evs =
    let total = successes_from initial_tx_track evs in
    (
      omega (arith, total),
      omega (arith, total, count_le (track_after initial_tx_track evs).in_block_seen),
    )

-- What turns a submission that has succeeded into a failure: the wallet's error, the events of a block
-- it was read in again, or a status other than that finality timed out.
abbrev pub Reversal : TxEvent → Type 0
Reversal (status s) = (stage_of s ≡ failed) × (is_timeout s ≡ false)
Reversal (outcome good final) = good ≡ false
Reversal (disconnected c) = ⊥
Reversal (check f) = ⊥
Reversal read_error = ⊥
Reversal signing_cap = ⊥
Reversal thrown = Unit
Reversal pre_cap = ⊥
Reversal finality_cap = ⊥

on_stage-fail :
    (st : Stage) (b : Bool) (t : Track)
    → t.in_block_seen ≡ true
    → (on_stage st b t).act ≡ fail
    → (st ≡ failed) × (b ≡ false)
unfolding on_stage
on_stage-fail broadcast b t seen h = ground (arith, seen, h)
on_stage-fail failed b t seen h = ground (arith, seen, h)
on_stage-fail in_block b t seen h = ground (arith, seen, h)
on_stage-fail finalized b t seen h = ground (arith, seen, h)

on_outcome-fail :
    (good final : Bool) (t : Track) → (on_outcome good final t).act ≡ fail → good ≡ false
unfolding on_outcome
on_outcome-fail good final t h = ground (arith, h)

on_event-fail :
    (ev : TxEvent) (t : Track) → t.in_block_seen ≡ true → (on_event ev t).act ≡ fail → Reversal ev
unfolding on_event on_disconnect
on_event-fail (status s) t seen h = on_stage-fail (stage_of s) (is_timeout s) t seen h
on_event-fail (outcome good final) t seen h = on_outcome-fail good final t h
on_event-fail (disconnected c) t seen h = ground (arith, seen, h)
on_event-fail (check found_applied) t seen h = ground (arith, seen, h)
on_event-fail (check found_processed) t seen h = ground (arith, seen, h)
on_event-fail (check found_pending) t seen h = ground (arith, seen, h)
on_event-fail read_error t seen h = ground (arith, seen, h)
on_event-fail signing_cap t seen h = ground (arith, seen, h)
on_event-fail thrown t seen h = tt
on_event-fail pre_cap t seen h = ground (arith, seen, h)
on_event-fail finality_cap t seen h = ground (arith, seen, h)

tx_step-open : (t : Track) (ev : TxEvent) → (tx_step t ev).act ≡ fail → tx_step t ev ≡ on_event ev t
unfolding tx_step
tx_step-open t ev h = ground (arith, h)

-- A submission that has been seen in a block fails only by a reversal: never by a dropped link, by a
-- timer, by a read that fails or by a finality timeout.
pub tx_step-fail :
    (t : Track) (ev : TxEvent) → t.in_block_seen ≡ true → (tx_step t ev).act ≡ fail → Reversal ev
tx_step-fail t ev seen h = on_event-fail ev t seen (ap (λ r. r.act) (sym (tx_step-open t ev h)) ∙ h)
