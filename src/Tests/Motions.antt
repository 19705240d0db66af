-- ===== src/Tests/Motions.antt =====
-- Runs of the attribution of events to motions.
use pdexplorer.Prelude.{ℕ, true, false, ◌≡◌, refl, inl, inr, none, some, List, [], ◌∷◌, In, ◌==◌}
use pdexplorer.Governance.Motions.{
  closed, Motion, MotionEvent, event_rank, owner_of, at_or_before, before_event, proposed_before,
}
use pdexplorer.Governance.Motions.Owner.{owner_of_latest}

abbrev motion : ℕ → ℕ → Motion
motion i b = record {
  motion_index = i;
  motion_hash = "aa";
  proposed_block = some b;
  proposed_event_index = some 2;
  left_storage = true;
  live_ayes = none;
  live_nays = none;
}

abbrev closing : MotionEvent
closing = record {
  event_hash = "aa";
  block = 30;
  event_index = none;
  kind = closed;
  event_ayes = some 4;
  event_nays = some 1;
  event_at = none;
}

-- The same motion, tabled three times.
abbrev tabled : List Motion
tabled = motion 2 40 ∷ motion 0 10 ∷ motion 1 20 ∷ []

known_kind : (event_rank closing.kind == 0) ≡ false
unfolding event_rank
known_kind = refl

was_before : at_or_before (motion 0 10) closing ≡ true
unfolding before_event
was_before = refl

owner_of_latest_example :
    (o : Motion) × (owner_of tabled closing ≡ some o)
    × In o tabled
    × (o.motion_hash ≡ "aa")
    × (at_or_before o closing ≡ true)
    × (proposed_before (motion 0 10) o ≡ true)
owner_of_latest_example =
    owner_of_latest tabled closing (motion 0 10) known_kind (inr (inl refl)) refl was_before
