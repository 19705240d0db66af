-- ===== src/Wallet/LockActions.antt =====
-- The releases that the balance panel offers: unbondingSchedule, democracyActions and lockActions of
-- lib/lock-actions.js. Amounts and heights are whole and not negative; dates are left out. Where the
-- chain has shown nothing of an amount it reads as 0.
pub mod Offer
pub mod Pallet
pub mod Batch
pub mod Release
pub mod Withdraw
use pdexplorer.Prelude.{
  ℕ, ◌+◌, ◌-◌, ◌*◌, max, Bool, true, false, not, ◌&&◌, ◌||◌, Option, none, some, List, [], ◌∷◌, ltb,
  leb, ◌==◌, is_nil, if◌then◌else◌,
}
use pdexplorer.Prelude.Sort.{sort_by}
use pdexplorer.Wallet.LockPlan.{Conviction, lock_periods}

pub record Chunk : Type 0 where
  pub value : ℕ
  pub era : ℕ

pub record Pending : Type 0 where
  pub value : ℕ
  pub era : ℕ
  pub eras_left : Option ℕ

pub record Schedule : Type 0 where
  pub withdrawable : ℕ
  pub ready_count : ℕ
  pub pending : List Pending

-- `a ?? b`
abbrev pub nullish {ℓ} : {A : Type ℓ} → Option A → Option A → Option A
nullish none b = b
nullish (some a) b = some a

abbrev pub is_ready : Option ℕ → Chunk → Bool
is_ready none c = false
is_ready (some now) c = leb c.era now

abbrev pub pending_of : Option ℕ → Chunk → Pending
pending_of era_now c = record {
  value = c.value;
  era = c.era;
  eras_left = elim era_now [ none ↦ none | some now ↦ some (c.era - now) ];
}

-- The loop over the chunks, from its last round.
unfoldable pub scan_chunks : Option ℕ → List Chunk → Schedule
scan_chunks era_now [] = record { withdrawable = 0; ready_count = 0; pending = [] }
scan_chunks era_now (c ∷ cs) =
    let rest = scan_chunks era_now cs in
    if is_ready era_now c
    then record rest {
      withdrawable = rest.withdrawable + c.value;
      ready_count = rest.ready_count + 1;
    }
    else record rest { pending = pending_of era_now c ∷ rest.pending }

abbrev pub era_leb : Pending → Pending → Bool
era_leb a b = leb a.era b.era

unfoldable pub unbonding_schedule : List Chunk → Option ℕ → Option ℕ → Schedule
unbonding_schedule chunks current_era active_era =
    let s = scan_chunks (nullish current_era active_era) chunks in
    record s { pending = sort_by era_leb s.pending }

-- A vote of the account; `aye` is missing for a split vote.
pub record OwnVote : Type 0 where
  pub index : ℕ
  pub aye : Option Bool
  pub conviction : Conviction
  pub balance : ℕ

-- What was read of a referendum (`dem.referenda`); nothing, where the read failed.
pub data RefInfo : Type 0 where
  ongoing : ℕ → RefInfo
  finished : ℕ → Bool → RefInfo
  cancelled : RefInfo

pub record Lock : Type 0 where
  pub until : ℕ
  pub amount : ℕ

abbrev pub no_lock : Lock
no_lock = record { until = 0; amount = 0 }

pub record Democracy : Type 0 where
  pub delegating : Bool
  pub conviction : Conviction
  pub balance : ℕ
  pub prior : Lock
  pub locking_period : ℕ
  pub votes : List OwnVote
  pub find_referendum : ℕ → Option RefInfo

-- `at`: the height, and the lock as the balances pallet has it.
pub record Height : Type 0 where
  pub block : ℕ
  pub lock_amount : Option ℕ

pub record Removal : Type 0 where
  pub index : ℕ
  pub lock_until : Option ℕ

pub record Cancel : Type 0 where
  pub index : ℕ
  pub end_block : ℕ

-- What the loop over the votes writes.
pub record Scan : Type 0 where
  pub remove : List Removal
  pub cancel : List Cancel
  pub wait_for : List ℕ
  pub ongoing_max : ℕ
  pub votes_max : ℕ
  pub added : List Lock

abbrev pub won : Option Bool → Bool → Bool
won none approved = false
won (some aye) approved = if approved then aye else not aye

-- How long a vote in a finished referendum would lock, from 0 for one that lost.
abbrev pub held_until : ℕ → OwnVote → ℕ → Bool → ℕ
held_until period v end_block approved =
    if won v.aye approved then end_block + lock_periods v.conviction * period else 0

-- One vote, before the votes that follow it.
unfoldable pub scan_vote : ℕ → ℕ → OwnVote → Option RefInfo → Scan → Scan
scan_vote block period v none rest = record rest {
  wait_for = v.index ∷ rest.wait_for;
  ongoing_max = max v.balance rest.ongoing_max;
  votes_max = max v.balance rest.votes_max;
}
scan_vote block period v (some (ongoing end_block)) rest = record rest {
  cancel = record { index = v.index; end_block = end_block } ∷ rest.cancel;
  wait_for = v.index ∷ rest.wait_for;
  ongoing_max = max v.balance rest.ongoing_max;
  votes_max = max v.balance rest.votes_max;
}
scan_vote block period v (some (finished end_block approved)) rest =
    let until = held_until period v end_block approved in
    if ltb block until
    then record rest {
      remove = record { index = v.index; lock_until = some until } ∷ rest.remove;
      added = record { until = until; amount = v.balance } ∷ rest.added;
      votes_max = max v.balance rest.votes_max;
    }
    else record rest {
      remove = record { index = v.index; lock_until = none } ∷ rest.remove;
      votes_max = max v.balance rest.votes_max;
    }
scan_vote block period v (some cancelled) rest = record rest {
  remove = record { index = v.index; lock_until = none } ∷ rest.remove;
  votes_max = max v.balance rest.votes_max;
}

abbrev pub no_scan : Scan
no_scan = record {
  remove = [];
  cancel = [];
  wait_for = [];
  ongoing_max = 0;
  votes_max = 0;
  added = [];
}

-- The loop over the votes.
unfoldable pub scan_votes : ℕ → Democracy → List OwnVote → Scan
scan_votes block dem [] = no_scan
scan_votes block dem (v ∷ vs) =
    let rest = scan_votes block dem vs in
    scan_vote block dem.locking_period v (dem.find_referendum v.index) rest

-- `PriorLock::accumulate`, as the source works it out.
unfoldable pub accumulate : Lock → List Lock → Lock
accumulate p [] = p
accumulate p (a ∷ added) =
    accumulate (record { until = max p.until a.until; amount = max p.amount a.amount }) added

pub record Undelegate : Type 0 where
  pub lock_now : ℕ
  pub lock_until : ℕ

pub record Direct : Type 0 where
  pub remove : List Removal
  pub cancel : List Cancel
  pub wait_for : List ℕ
  pub rejig_first : Bool
  pub unlock : Bool
  pub lock_now : ℕ
  pub lock_after : ℕ
  pub freed : ℕ
  pub locked_until : Option ℕ

pub data DemocracyPlan : Type 0 where
  delegating : Undelegate → DemocracyPlan
  direct : Direct → DemocracyPlan

abbrev pub undelegate_of : Democracy → Height → Undelegate
undelegate_of dem at = record {
  lock_now = elim at.lock_amount [ none ↦ max dem.balance dem.prior.amount | some n ↦ n ];
  lock_until = at.block + lock_periods dem.conviction * dem.locking_period;
}

-- The lock as the pallet last set it.
abbrev pub lock_as_set : Democracy → Height → Scan → ℕ
lock_as_set dem at s = elim at.lock_amount [
  | none ↦ max s.votes_max dem.prior.amount
  | some n ↦ if ltb 0 n then n else max s.votes_max dem.prior.amount
]

-- An expired lock that the removes would carry along is cleared before them.
abbrev pub rejigs_first : Democracy → Height → Scan → Bool
rejigs_first dem at s =
    not (is_nil s.remove)
    && (not (is_nil s.added) && (ltb 0 dem.prior.until && leb dem.prior.until at.block))

-- What is left of a lock at a height.
abbrev pub rejigged : ℕ → Lock → Lock
rejigged block p = if leb p.until block then no_lock else p

unfoldable pub direct_actions : Democracy → Height → Direct
direct_actions dem at =
    let s = scan_votes at.block dem dem.votes in
    let lock_now = lock_as_set dem at s in
    let rejig_first = rejigs_first dem at s in
    let p = rejigged at.block (accumulate (if rejig_first then no_lock else dem.prior) s.added) in
    let lock_after = max s.ongoing_max p.amount in
    record {
      remove = s.remove;
      cancel = s.cancel;
      wait_for = s.wait_for;
      rejig_first = rejig_first;
      unlock = ltb lock_after lock_now;
      lock_now = lock_now;
      lock_after = lock_after;
      freed = if ltb lock_after lock_now then lock_now - lock_after else 0;
      locked_until = if ltb at.block p.until then some p.until else none;
    }

unfoldable pub democracy_actions : Democracy → Height → DemocracyPlan
democracy_actions dem at =
    if dem.delegating
    then DemocracyPlan.delegating (undelegate_of dem at)
    else direct (direct_actions dem at)
