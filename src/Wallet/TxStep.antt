-- ===== src/Wallet/TxStep.antt =====
-- lib/tx-status.js: the state of a submission from the wallet's answer to finality, which
-- lib/tx-submit.js carries out. A status is an object of polkadot-js with its type.
pub mod Once
pub mod Caps
use pdexplorer.Prelude.{
  ℕ, ◌+◌, Bool, true, false, not, ◌&&◌, ◌||◌, Option, none, some, List, [], ◌∷◌, if◌then◌else◌,
}

-- `unlisted` is any type that the table does not have.
pub data StatusType : Type 0 where
  future ready broadcasting retracted included_in finalized_in : StatusType
  dropped_out invalid usurped finality_timeout unlisted : StatusType

pub data Stage : Type 0 where
  broadcast in_block finalized failed : Stage

unfoldable pub stage_of : StatusType → Stage
stage_of future = broadcast
stage_of ready = broadcast
stage_of broadcasting = broadcast
stage_of retracted = broadcast
stage_of included_in = in_block
stage_of finalized_in = finalized
stage_of dropped_out = failed
stage_of invalid = failed
stage_of usurped = failed
stage_of finality_timeout = failed
stage_of unlisted = broadcast

pub record Track : Type 0 where
  pub done : Bool
  pub sent : Bool
  pub in_block_seen : Bool
  pub included : Bool
  pub reading : Bool
  pub dropped : Bool
  pub cap_passed : Bool
  pub lost : Bool

abbrev pub initial_tx_track : Track
initial_tx_track = record {
  done = false;
  sent = false;
  in_block_seen = false;
  included = false;
  reading = false;
  dropped = false;
  cap_passed = false;
  lost = false;
}

pub data Found : Type 0 where
  found_applied found_processed found_pending : Found

-- The events of the tracker.
pub data TxEvent : Type 0 where
  status : StatusType → TxEvent
  -- What the events of the block that was read said, and whether the block is the final one.
  outcome : Bool → Bool → TxEvent
  -- Whether the chain can be asked about the transaction.
  disconnected : Bool → TxEvent
  check : Found → TxEvent
  read_error signing_cap thrown pre_cap finality_cap : TxEvent

pub data Act : Type 0 where
  ignore resent sent_now unconfirmed fail read ok confirmed processed waiting wallet_silent
        lost_link stalled first_success :
      Act

-- `first_ok` and `is_final` are false where the answer does not have them.
pub record Step : Type 0 where
  pub state : Track
  pub act : Act
  pub first_ok : Bool
  pub is_final : Bool
  pub arm_pre_cap : Bool

abbrev pub out : Act → Track → Step
out a s = record { state = s; act = a; first_ok = false; is_final = false; arm_pre_cap = false }

abbrev pub end : Act → Track → Step
end a s = out a (record s { done = true })

unfoldable pub on_stage : Stage → Bool → Track → Step
on_stage broadcast timeout t =
    if t.in_block_seen
    then out resent (record t { included = false })
    else record (out sent_now (record t { sent = true })) { arm_pre_cap = not t.sent }
on_stage failed timeout t =
    if timeout && (t.included || t.in_block_seen) then end unconfirmed t else end fail t
on_stage in_block timeout t = out read (record t { reading = true })
on_stage finalized timeout t = out read (record t { reading = true })

abbrev pub is_timeout : StatusType → Bool
is_timeout s = elim s [ finality_timeout ↦ true | _ ↦ false ]

unfoldable pub on_outcome : Bool → Bool → Track → Step
on_outcome good final t =
    let s = record t { reading = false; included = good } in
    if not good
    then end fail s
    else if t.dropped
    then record (end unconfirmed (record s { in_block_seen = true })) {
      first_ok = not t.in_block_seen;
    }
    else let s1 = record s { done = final } in
      if t.in_block_seen
      then record (out ok s1) { is_final = final }
      else record (out first_success (record s1 { in_block_seen = true })) { is_final = final }

unfoldable pub on_disconnect : Bool → Track → Step
on_disconnect can_check t =
    if t.included
    then end unconfirmed t
    else if t.reading
    then out ignore (record t { dropped = true })
    else if t.in_block_seen
    then end unconfirmed t
    else if t.sent && can_check
    then out lost_link (record t { lost = true })
    else end fail t

abbrev pub on_found : Found → Track → Step
on_found found_applied t =
    record (end confirmed (record t { in_block_seen = true; included = true })) { first_ok = true }
on_found found_processed t = end processed t
on_found found_pending t = out ignore t

unfoldable pub on_event : TxEvent → Track → Step
on_event (status s) t = on_stage (stage_of s) (is_timeout s) t
on_event (outcome good final) t = on_outcome good final t
on_event (disconnected can_check) t = on_disconnect can_check t
on_event (check f) t =
    if not t.sent || (t.reading || t.in_block_seen) then out ignore t else on_found f t
on_event read_error t =
    if not t.reading
    then out ignore t
    else let s = record t { reading = false } in
      if t.cap_passed && not t.in_block_seen then end waiting s else out ignore s
on_event signing_cap t = if t.sent then out ignore t else end wallet_silent t
on_event thrown t = end fail t
on_event pre_cap t =
    if t.reading
    then out ignore (record t { cap_passed = true })
    else if t.in_block_seen
    then out ignore t
    else end waiting t
on_event finality_cap t = if t.included then end stalled t else end waiting t

unfoldable pub tx_step : Track → TxEvent → Step
tx_step t ev = if t.done then out ignore t else on_event ev t

-- The tracker calls `onSuccess` on the first success, or where the answer says that it is the first.
abbrev pub succeeds : Step → Bool
succeeds r = r.first_ok || elim r.act [ first_success ↦ true | _ ↦ false ]

abbrev pub track_after : Track → List TxEvent → Track
track_after t [] = t
track_after t (ev ∷ evs) = track_after (tx_step t ev).state evs

abbrev pub successes : Track → List TxEvent → ℕ
successes t [] = 0
successes t (ev ∷ evs) =
    (if succeeds (tx_step t ev) then 1 else 0) + successes (tx_step t ev).state evs
