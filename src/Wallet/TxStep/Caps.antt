-- ===== src/Wallet/TxStep/Caps.antt =====
-- The timers of a submission: none leaves it open.
use pdexplorer.Prelude.{true, ◌≡◌, ◌∙◌, refl, ap, List, [], ◌∷◌, arith, if◌then◌else◌}
use pdexplorer.Wallet.TxStep.{
  Track, TxEvent, read_error, signing_cap, pre_cap, finality_cap, on_event, tx_step, track_after,
}

-- The cap of the phase that a submission is in: of the wallet's answer, of the wait for a block, of the
-- block that is being read, and of finality.
abbrev pub phase_caps : Track → List TxEvent
phase_caps t =
    if t.in_block_seen
    then finality_cap ∷ []
    else if t.reading
    then pre_cap ∷ read_error ∷ []
    else if t.sent
    then pre_cap ∷ []
    else signing_cap ∷ []

-- However far a submission is, the cap of its phase ends it: an unread block is given up after the
-- cap for the wait has passed.
pub phase_caps_end : (t : Track) → (track_after t (phase_caps t)).done ≡ true
unfolding tx_step on_event
phase_caps_end t = ground arith

tx_step_done : (t : Track) (ev : TxEvent) → t.done ≡ true → (tx_step t ev).state ≡ t
unfolding tx_step
tx_step_done t ev h = ground (arith, h)

-- A submission that has ended stays as it is, whatever comes.
pub track_after_done : (t : Track) (evs : List TxEvent) → t.done ≡ true → track_after t evs ≡ t
track_after_done t [] h = refl
track_after_done t (ev ∷ evs) h =
    ap (λ u. track_after u evs) (tx_step_done t ev h) ∙ track_after_done t evs h
