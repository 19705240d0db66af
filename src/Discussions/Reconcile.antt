-- ===== src/Discussions/Reconcile.antt =====
-- `reconcileThreads` and `reconcileReferendumThreads` of lib/discussion-threads.js, and
-- `reconcileGovThreads` of server.js. The clock stands still during a call.
pub mod Step
pub mod Exact
pub mod Referenda
use Prim.Native.Char.{code}
use pdexplorer.Prelude.{
  ℕ, Bool, true, false, ◌&&◌, ◌||◌, not, Option, none, some, List, [], ◌∷◌, ◌++◌, String, str_eq,
  any, map, drop, leb, length, if◌then◌else◌,
}
use pdexplorer.Prelude.Int.{ℤ}
use pdexplorer.Prelude.Js.{JsValue, int}
use pdexplorer.Prelude.Text.{Text, codes, starts_with, text_eq}
use pdexplorer.Discussions.Table.{
  Kind, proposal, motion, external, referendum, same_kind, Thread, Threads, is_closed, get_thread,
  create_thread_if_missing, get_open_thread_ids, close_thread, reopen_thread,
  set_thread_proposal_hash, set_thread_title,
}
use pdexplorer.Discussions.Trust.{Trust, is_trusted, next_high_water}

abbrev pub auto_close_reason : Kind → String
auto_close_reason proposal = "Proposal tabled and moved to a referendum (voting)."
auto_close_reason motion = "Council motion concluded."
auto_close_reason external = "External proposal is no longer queued."
auto_close_reason referendum = "Referendum ended."

pub data RefState : Type 0 where
  ongoing passed failed cancelled : RefState

-- `REFERENDUM_CLOSE_REASON[state]`
abbrev pub referendum_close_reason : RefState → Option String
referendum_close_reason ongoing = none
referendum_close_reason passed = some "Referendum passed."
referendum_close_reason failed = some "Referendum failed."
referendum_close_reason cancelled = some "Referendum cancelled."

abbrev pub launched_prefix : String
launched_prefix = "External proposal launched as referendum #"

-- One digit or more, and a full stop.
unfoldable pub is_number_and_stop : Text → Bool
is_number_and_stop [] = false
is_number_and_stop (c ∷ []) = false
is_number_and_stop (c ∷ d ∷ rest) =
    leb b'0' c && leb c b'9' && (text_eq (d ∷ rest) (codes ".") || is_number_and_stop (d ∷ rest))

unfoldable pub is_launched_reason : String → Bool
unfolding is_number_and_stop
is_launched_reason reason =
    starts_with (codes reason) (codes launched_prefix)
    && is_number_and_stop (drop (length (codes launched_prefix)) (codes reason))

-- A reason that this module gave, of those that are no blank.
unfoldable pub is_auto_close_text : Kind → String → Bool
unfolding is_launched_reason
is_auto_close_text proposal reason = str_eq reason (auto_close_reason proposal)
is_auto_close_text motion reason = str_eq reason (auto_close_reason motion)
is_auto_close_text external reason =
    str_eq reason (auto_close_reason external) || is_launched_reason reason
is_auto_close_text referendum reason =
    str_eq reason (auto_close_reason referendum)
    || str_eq reason "Referendum passed."
    || str_eq reason "Referendum failed."
    || str_eq reason "Referendum cancelled."

abbrev pub is_auto_close_reason : Kind → Option String → Bool
is_auto_close_reason kind none = false
is_auto_close_reason kind (some reason) = is_auto_close_text kind reason

pub record Item : Type 0 where
  pub id : String
  pub ref_key : String
  pub title : Option String
  pub proposal_hash : Option Text
  pub title_decoded : Bool

-- What a reconcile changed.
pub record Changes : Type 0 where
  pub created : List String
  pub reopened : List String
  pub closed : List String
  pub skipped : Bool

abbrev pub annotate_hash : Item → Threads → Threads
annotate_hash it ts = elim it.proposal_hash [
  | none ↦ ts
  | some hash ↦ (set_thread_proposal_hash it.id hash ts).0
]

abbrev pub annotate_title : Item → Threads → Threads
annotate_title it ts = elim it.title [
  | none ↦ ts
  | some title ↦ (set_thread_title it.id title ts).0
]

unfoldable pub annotate : Item → Threads → Threads
annotate it ts =
    let hashed = annotate_hash it ts in
    if it.title_decoded then annotate_title it hashed else hashed

-- A thread that this module closed is opened again.
abbrev pub to_reopen : Kind → Option Thread → Bool
to_reopen kind none = false
to_reopen kind (some t) = is_closed t.status && is_auto_close_reason kind t.closed_reason

unfoldable pub self_heal : Kind → String → Threads × Changes → Threads × Changes
self_heal kind id (ts, out) =
    let (opened_again, changed) = reopen_thread id ts in
    if to_reopen kind (get_thread id ts)
    then (
      opened_again,
      (if changed then record out { reopened = out.reopened ++ (id ∷ []) } else out),
    )
    else (ts, out)

-- The round of an item of the chain's active list.
unfoldable pub keep_item : ℕ → Kind → Bool → Item → Threads × Changes → Threads × Changes
keep_item now kind trusted it (ts, out) =
    let (made, created) = create_thread_if_missing now kind it.id it.ref_key it.title ts in
    let noted = annotate it made in
    if created
    then (noted, record out { created = out.created ++ (it.id ∷ []) })
    else (if trusted then self_heal kind it.id (noted, out) else (noted, out))

unfoldable pub keep_items : ℕ → Kind → Bool → List Item → Threads × Changes → Threads × Changes
keep_items now kind trusted [] st = st
keep_items now kind trusted (it ∷ its) st =
    keep_items now kind trusted its (keep_item now kind trusted it st)

abbrev pub is_active : List Item → String → Bool
is_active items id = any (λ (it : Item). str_eq it.id id) items

-- `closeReason(id) || AUTO_CLOSE_REASON[kind]`
abbrev pub reason_for : Kind → (String → Option String) → String → String
reason_for kind close_reason id = elim (close_reason id) [
  | none ↦ auto_close_reason kind
  | some reason ↦ if str_eq reason "" then auto_close_reason kind else reason
]

-- The round of an open thread.
unfoldable pub close_one :
    ℕ → Kind → List Item → (String → Option String) → String → Threads × Changes → Threads × Changes
close_one now kind items close_reason id (ts, out) = if is_active items id then (ts, out) else (
  close_thread now id (reason_for kind close_reason id) ts,
  record out { closed = out.closed ++ (id ∷ []) },
)

unfoldable pub close_missing :
    ℕ
    → Kind
    → List Item
    → (String → Option String)
    → List String
    → Threads × Changes
    → Threads × Changes
close_missing now kind items close_reason [] st = st
close_missing now kind items close_reason (id ∷ ids) st =
    close_missing now kind items close_reason ids (close_one now kind items close_reason id st)

abbrev pub no_changes : Bool → Changes
no_changes skipped = record { created = []; reopened = []; closed = []; skipped = skipped }

unfoldable pub reconcile_threads :
    ℕ → Kind → List Item → Bool → (String → Option String) → Threads → Threads × Changes
reconcile_threads now kind items trusted close_reason ts =
    let st = keep_items now kind trusted items (ts, no_changes (not trusted)) in
    if trusted
    then close_missing now kind items close_reason (get_open_thread_ids kind st.0) st
    else st

-- What a read saw of an item; the state is that of a referendum.
pub record RefRead : Type 0 where
  pub item : Item
  pub state : RefState

abbrev pub is_open_thread : Option Thread → Bool
is_open_thread none = false
is_open_thread (some t) = not (is_closed t.status)

unfoldable pub end_referendum : ℕ → String → String → Threads × Changes → Threads × Changes
end_referendum now id reason (ts, out) =
    if is_open_thread (get_thread id ts)
    then (close_thread now id reason ts, record out { closed = out.closed ++ (id ∷ []) })
    else (ts, out)

-- By the reason that the state of the referendum gives for a close, if it gives one.
unfoldable pub read_state : ℕ → Bool → Item → Option String → Threads × Changes → Threads × Changes
read_state now trusted it none st = keep_item now referendum trusted it st
read_state now trusted it (some reason) st =
    if trusted then end_referendum now it.id reason st else st

unfoldable pub read_referendum : ℕ → Bool → RefRead → Threads × Changes → Threads × Changes
read_referendum now trusted r st =
    read_state now trusted r.item (referendum_close_reason r.state) st

unfoldable pub read_referenda : ℕ → Bool → List RefRead → Threads × Changes → Threads × Changes
read_referenda now trusted [] st = st
read_referenda now trusted (r ∷ rs) st =
    read_referenda now trusted rs (read_referendum now trusted r st)

unfoldable pub reconcile_referendum_threads : ℕ → List RefRead → Bool → Threads → Threads × Changes
reconcile_referendum_threads now reads trusted ts =
    read_referenda now trusted reads (ts, no_changes (not trusted))

-- The threads, and the key-value row with the height of the last trusted read of each kind.
pub record Board : Type 0 where
  pub threads : Threads
  pub high_water : Kind → JsValue

unfoldable pub reconcile_gov_threads :
    ℕ → Kind → List RefRead → Trust → JsValue → (String → Option String) → Board → Board
reconcile_gov_threads now kind reads trust current close_reason b =
    let reconciled =
      if same_kind kind referendum
      then reconcile_referendum_threads now reads (is_trusted trust) b.threads
      else reconcile_threads now kind (map (λ (r : RefRead). r.item) reads) (is_trusted trust)
          close_reason b.threads in
    if is_trusted trust
    then record {
      threads = reconciled.0;
      high_water = λ k.
          if same_kind k kind
          then int (next_high_water (b.high_water kind) current)
          else b.high_water k;
    }
    else record b { threads = reconciled.0 }
