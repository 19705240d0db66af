-- ===== src/Wallet/LiveRuntime.antt =====
-- lib/live-runtime.js: whether the node's runtime may be signed for, and the subscription that follows
-- its version. The texts are left out.
pub mod Follow
use pdexplorer.Prelude.{
  ℕ, suc, ◌+◌, Bool, true, false, not, ◌&&◌, ◌||◌, Option, none, some, List, [], ◌∷◌, ◌++◌, ltb,
  ◌==◌, if◌then◌else◌,
}

abbrev pub min_live_spec : ℕ
min_live_spec = 392

pub data LiveStatus : Type 0 where
  live stale not_ready : LiveStatus

unfoldable pub status_for_spec : Option ℕ → ℕ → LiveStatus
status_for_spec none least = not_ready
status_for_spec (some spec) least = if ltb spec least then stale else live

-- The message before a signature: none where signing may go ahead.
unfoldable pub live_runtime_error : Option ℕ → ℕ → Option LiveStatus
live_runtime_error spec least = elim (status_for_spec spec least) [
  | live ↦ none
  | stale ↦ some stale
  | not_ready ↦ some not_ready
]

abbrev pub same_spec : Option ℕ → Option ℕ → Bool
same_spec none none = true
same_spec none (some b) = false
same_spec (some a) none = false
same_spec (some a) (some b) = a == b

-- The variables of followRuntimeVersion: `held` says that the node's function to unsubscribe is kept.
-- `notified` are the specs that `onVersion` was called with, the newest first, and `unsubscribed` how
-- often that function was called.
pub record Following : Type 0 where
  pub stopped : Bool
  pub held : Bool
  pub last_spec : Option ℕ
  pub notified : List (Option ℕ)
  pub unsubscribed : ℕ

abbrev pub follow_from : Option ℕ → Following
follow_from spec = record {
  stopped = false;
  held = false;
  last_spec = spec;
  notified = [];
  unsubscribed = 0;
}

-- What happens to the subscription: the node tells a version, it answers the request with a function
-- to unsubscribe or without one, or `stop` is called, by its handle or by `api.disconnect`.
pub data FollowEvent : Type 0 where
  version : Option ℕ → FollowEvent
  answered : Bool → FollowEvent
  stop : FollowEvent

unfoldable pub follow_step : FollowEvent → Following → Following
follow_step (version spec) f =
    if f.stopped || same_spec spec f.last_spec
    then f
    else record f { last_spec = spec; notified = spec ∷ f.notified }
follow_step (answered has_function) f =
    if f.stopped
    then (if has_function then record f { unsubscribed = suc f.unsubscribed } else f)
    else record f { held = has_function }
follow_step stop f = if f.stopped then f else record f {
  stopped = true;
  held = false;
  unsubscribed = (if f.held then suc f.unsubscribed else f.unsubscribed);
}

abbrev pub follow_runtime_version : Following → List FollowEvent → Following
follow_runtime_version f [] = f
follow_runtime_version f (ev ∷ evs) = follow_runtime_version (follow_step ev f) evs
