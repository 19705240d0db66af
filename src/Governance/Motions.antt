-- ===== src/Governance/Motions.antt =====
-- attributeMotionEvents of lib/collective-motions.js: which motion an event is about, and what the
-- events make of a motion. A motion object is known by its index, which no other in the list has.
-- Blocks and event indices are numbers where they are there.
pub mod Owner
pub mod Outcome
use pdexplorer.Prelude.{
  ℕ, Bool, true, false, not, ◌&&◌, ◌||◌, Option, none, some, List, [], ◌∷◌, map, String, str_eq,
  ltb, leb, ◌==◌, find, filter_by, if◌then◌else◌,
}
use pdexplorer.Prelude.Sort.{sort_by}

pub data Kind : Type 0 where
  closed approved disapproved executed other : Kind

-- `EVENT_RANK`, and 0 for an event that is none of its kinds.
unfoldable pub event_rank : Kind → ℕ
event_rank closed = 2
event_rank approved = 3
event_rank disapproved = 3
event_rank executed = 4
event_rank other = 0

pub record Motion : Type 0 where
  pub motion_index : ℕ
  pub motion_hash : String
  pub proposed_block : Option ℕ
  pub proposed_event_index : Option ℕ
  pub left_storage : Bool
  pub live_ayes : Option ℕ
  pub live_nays : Option ℕ

pub record MotionEvent : Type 0 where
  pub event_hash : String
  pub block : ℕ
  pub event_index : Option ℕ
  pub kind : Kind
  pub event_ayes : Option ℕ
  pub event_nays : Option ℕ
  pub event_at : Option ℕ

pub data MotionStatus : Type 0 where
  proposed resolved : MotionStatus
  decided : Kind → MotionStatus

pub record MotionOutcome : Type 0 where
  pub outcome_index : ℕ
  pub status : MotionStatus
  pub ayes : Option ℕ
  pub nays : Option ℕ
  pub resolved_block : Option ℕ
  pub resolved_at : Option ℕ

-- `a <= b` and `a === b` where a missing number stands for infinity.
abbrev pub leb_inf : Option ℕ → Option ℕ → Bool
leb_inf a none = true
leb_inf none (some b) = false
leb_inf (some a) (some b) = leb a b

abbrev pub eq_inf : Option ℕ → Option ℕ → Bool
eq_inf none none = true
eq_inf none (some b) = false
eq_inf (some a) none = false
eq_inf (some a) (some b) = a == b

-- The order of the motions of one hash.
unfoldable pub proposed_before : Motion → Motion → Bool
proposed_before a b =
    if not (eq_inf a.proposed_block b.proposed_block)
    then leb_inf a.proposed_block b.proposed_block
    else if not (eq_inf a.proposed_event_index b.proposed_event_index)
    then leb_inf a.proposed_event_index b.proposed_event_index
    else leb a.motion_index b.motion_index

-- `a[1] <= b[1]`, where the index of the motion counts as infinity and that of the event as -1.
abbrev pub index_before : Option ℕ → Option ℕ → Bool
index_before none i = false
index_before (some a) none = false
index_before (some a) (some i) = leb a i

-- `before(posOf(m...), posOf(ev...))` for a known block.
unfoldable pub before_event : ℕ → Option ℕ → MotionEvent → Bool
before_event b i ev = ltb b ev.block || (b == ev.block && index_before i ev.event_index)

abbrev pub block_before : Option ℕ → Option ℕ → MotionEvent → Bool
block_before none i ev = false
block_before (some b) i ev = before_event b i ev

abbrev pub at_or_before : Motion → MotionEvent → Bool
at_or_before m ev = block_before m.proposed_block m.proposed_event_index ev

abbrev pub is_none : Option ℕ → Bool
is_none none = true
is_none (some n) = false

-- The loop over the motions of a hash, which stops at the first one after the event.
unfoldable pub last_before : Option Motion → List Motion → MotionEvent → Option Motion
last_before owner [] ev = owner
last_before owner (m ∷ ms) ev = elim (is_none m.proposed_block) [
  | true ↦ last_before owner ms ev
  | false ↦ elim (at_or_before m ev) [ true ↦ last_before (some m) ms ev | false ↦ owner ]
]

unfoldable pub with_hash : String → List Motion → List Motion
with_hash h motions = sort_by proposed_before (filter_by (λ m. str_eq m.motion_hash h) motions)

-- The only motion with the hash owns an event that none was found for.
abbrev pub only_one : List Motion → Option Motion
only_one [] = none
only_one (m ∷ []) = some m
only_one (m ∷ n ∷ ms) = none

abbrev pub owner_or : Option Motion → Option Motion → Option Motion
owner_or none o = o
owner_or (some m) o = some m

unfoldable pub owner_of : List Motion → MotionEvent → Option Motion
owner_of motions ev =
    if event_rank ev.kind == 0
    then none
    else let list = with_hash ev.event_hash motions in
      owner_or (last_before none list ev) (only_one list)

abbrev pub is_owner : Motion → Option Motion → Bool
is_owner m none = false
is_owner m (some o) = o.motion_index == m.motion_index

unfoldable pub events_of : List Motion → List MotionEvent → Motion → List MotionEvent
events_of motions events m = filter_by (λ ev. is_owner m (owner_of motions ev)) events

abbrev pub highest_rank : MotionEvent → List MotionEvent → MotionEvent
highest_rank top [] = top
highest_rank top (e ∷ es) =
    highest_rank (if ltb (event_rank top.kind) (event_rank e.kind) then e else top) es

abbrev pub latest_block : MotionEvent → List MotionEvent → MotionEvent
latest_block a [] = a
latest_block a (b ∷ es) = latest_block (if ltb a.block b.block then b else a) es

abbrev pub is_closed : MotionEvent → Bool
is_closed e = elim e.kind [ closed ↦ true | _ ↦ false ]

abbrev pub has_tally : MotionEvent → Bool
has_tally e = not (is_none e.event_ayes) || not (is_none e.event_nays)

abbrev pub event_or : Option MotionEvent → MotionEvent → MotionEvent
event_or none e = e
event_or (some c) e = c

abbrev pub either_event : Option MotionEvent → Option MotionEvent → Option MotionEvent
either_event none o = o
either_event (some c) o = some c

abbrev pub ayes_of : Option MotionEvent → Option ℕ
ayes_of none = none
ayes_of (some e) = e.event_ayes

abbrev pub nays_of : Option MotionEvent → Option ℕ
nays_of none = none
nays_of (some e) = e.event_nays

unfoldable pub outcome_of : Motion → List MotionEvent → MotionOutcome
outcome_of m [] = record {
  outcome_index = m.motion_index;
  status = (if m.left_storage then resolved else proposed);
  ayes = m.live_ayes;
  nays = m.live_nays;
  resolved_block = none;
  resolved_at = none;
}
outcome_of m (e ∷ es) =
    let closing = find is_closed (e ∷ es) in
    let resolver = event_or closing (latest_block e es) in
    let tally = either_event closing (find has_tally (e ∷ es)) in
    record {
      outcome_index = m.motion_index;
      status = decided (highest_rank e es).kind;
      ayes = ayes_of tally;
      nays = nays_of tally;
      resolved_block = some resolver.block;
      resolved_at = resolver.event_at;
    }

unfoldable pub attribute_motion_events : List Motion → List MotionEvent → List MotionOutcome
attribute_motion_events motions events =
    map (λ m. outcome_of m (events_of motions events m)) motions
