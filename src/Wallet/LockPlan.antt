-- ===== src/Wallet/LockPlan.antt =====
-- The lock of a democracy vote: LOCK_PERIODS and democracyLockPlan of lib/balance-locks.js. Heights that
-- are missing or no numbers read as 0. The fields that are copied to the plan and its rows (the target
-- and the conviction of a delegation, the side, conviction and balance of a vote) are left out.
pub mod Unlock
use pdexplorer.Prelude.{
  ℕ, ◌+◌, ◌*◌, max, Bool, true, false, not, ◌&&◌, ◌||◌, Option, none, some, List, [], ◌∷◌, leb, any,
  if◌then◌else◌,
}

pub data Conviction : Type 0 where
  unlocked locked_1x locked_2x locked_3x locked_4x locked_5x locked_6x : Conviction

unfoldable pub lock_periods : Conviction → ℕ
lock_periods unlocked = 0
lock_periods locked_1x = 1
lock_periods locked_2x = 2
lock_periods locked_3x = 4
lock_periods locked_4x = 8
lock_periods locked_5x = 16
lock_periods locked_6x = 32

-- `aye` is missing for a split vote.
pub record Vote : Type 0 where
  pub index : ℕ
  pub aye : Option Bool
  pub conviction : Conviction

pub record Referendum : Type 0 where
  pub is_ongoing : Bool
  pub is_finished : Bool
  pub approved : Bool
  pub end_block : ℕ

-- `find_referendum` reads `dem.referenda`.
pub record Democracy : Type 0 where
  pub delegating : Bool
  pub prior_until : ℕ
  pub locking_period : ℕ
  pub votes : List Vote
  pub find_referendum : ℕ → Option Referendum

pub data Mode : Type 0 where
  no_lock delegated direct : Mode

pub data RefState : Type 0 where
  unknown ongoing finished : RefState

pub record RefRow : Type 0 where
  pub row_index : ℕ
  pub state : RefState
  pub row_end : Option ℕ
  pub row_unlock_at : Option ℕ

-- The rows and the two variables that the loop over the votes writes.
pub record Scan : Type 0 where
  pub rows : List RefRow
  pub latest : ℕ
  pub any_ongoing : Bool

pub record UnlockPlan : Type 0 where
  pub mode : Mode
  pub refs : List RefRow
  pub unlock_at : ℕ
  pub has_ongoing : Bool
  pub can_unlock_now : Bool

unfoldable pub won : Option Bool → Referendum → Bool
won none info = false
won (some aye) info = if info.approved then aye else not aye

unfoldable pub vote_unlock_at : ℕ → Vote → Referendum → ℕ
vote_unlock_at period v info =
    info.end_block + (if won v.aye info then lock_periods v.conviction else 0) * period

abbrev unknown_row : ℕ → RefRow
unknown_row i = record { row_index = i; state = unknown; row_end = none; row_unlock_at = none }

-- One vote: its row, and the variables after it.
unfoldable pub scan_vote : ℕ → Vote → Option Referendum → Scan → Scan
scan_vote period v none rest = record rest { rows = unknown_row v.index ∷ rest.rows }
scan_vote period v (some info) rest =
    if info.is_ongoing
    then record {
      rows =
          record {
            row_index = v.index;
            state = ongoing;
            row_end = some info.end_block;
            row_unlock_at = none;
          }
          ∷ rest.rows;
      latest = rest.latest;
      any_ongoing = true;
    }
    else if info.is_finished
    then record {
      rows =
          record {
            row_index = v.index;
            state = finished;
            row_end = some info.end_block;
            row_unlock_at = some (vote_unlock_at period v info);
          }
          ∷ rest.rows;
      latest = max rest.latest (vote_unlock_at period v info);
      any_ongoing = rest.any_ongoing;
    }
    else record rest { rows = unknown_row v.index ∷ rest.rows }

-- `dem.votes.map(...)`, with the variables that it writes: a maximum and a flag, whose values do not
-- depend on the order of the votes.
unfoldable pub scan_votes : Democracy → List Vote → Scan
scan_votes dem [] = record { rows = []; latest = dem.prior_until; any_ongoing = false }
scan_votes dem (v ∷ vs) =
    let rest = scan_votes dem vs in
    scan_vote dem.locking_period v (dem.find_referendum v.index) rest

abbrev pub is_unknown : RefRow → Bool
is_unknown r = elim r.state [ unknown ↦ true | _ ↦ false ]

unfoldable pub democracy_lock_plan : Option Democracy → ℕ → UnlockPlan
democracy_lock_plan none now = record {
  mode = no_lock;
  refs = [];
  unlock_at = 0;
  has_ongoing = false;
  can_unlock_now = false;
}
democracy_lock_plan (some dem) now =
    if dem.delegating
    then record {
      mode = delegated;
      refs = [];
      unlock_at = dem.prior_until;
      has_ongoing = false;
      can_unlock_now = false;
    }
    else let s = scan_votes dem dem.votes in
      record {
        mode = direct;
        refs = s.rows;
        unlock_at = s.latest;
        has_ongoing = s.any_ongoing;
        can_unlock_now = not s.any_ongoing && (not (any is_unknown s.rows) && leb s.latest now);
      }
