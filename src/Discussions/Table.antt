-- ===== src/Discussions/Table.antt =====
-- The table `discussion_threads` and the statements of db.js on it. A thread is known by its id, the
-- primary key. Titles, ids and reasons are strings, a hash is a text.
pub mod Standings
pub mod Notes
use pdexplorer.Prelude.{
  ℕ, Bool, true, false, ◌&&◌, ◌||◌, not, Option, none, some, List, [], ◌∷◌, ◌++◌, String, str_eq,
  map, any, find, if◌then◌else◌,
}
use pdexplorer.Prelude.Text.{Text, to_lower_case, is_empty}

pub data Kind : Type 0 where
  proposal motion external referendum : Kind

abbrev pub same_kind : Kind → Kind → Bool
same_kind proposal proposal = true
same_kind motion motion = true
same_kind external external = true
same_kind referendum referendum = true
same_kind _ _ = false

pub data ThreadStatus : Type 0 where
  opened closed : ThreadStatus

abbrev pub is_closed : ThreadStatus → Bool
is_closed opened = false
is_closed closed = true

pub record Thread : Type 0 where
  pub id : String
  pub kind : Kind
  pub ref_key : String
  pub title : Option String
  pub status : ThreadStatus
  pub created_at : ℕ
  pub closed_at : Option ℕ
  pub closed_reason : Option String
  pub proposal_hash : Option Text

abbrev pub Threads : Type 0
Threads = List Thread

-- `getThread`, without the count of its posts.
unfoldable pub get_thread : String → Threads → Option Thread
get_thread id [] = none
get_thread id (t ∷ ts) = if str_eq t.id id then some t else get_thread id ts

-- UPDATE … WHERE id = ? AND …, which changes no key.
unfoldable pub update_thread : String → (Thread → Bool) → (Thread → Thread) → Threads → Threads
update_thread id p change [] = []
update_thread id p change (t ∷ ts) =
    let rest = update_thread id p change ts in
    if str_eq t.id id && p t then change t ∷ rest else t ∷ rest

-- `changes > 0` of such a statement.
unfoldable pub updates : String → (Thread → Bool) → Threads → Bool
updates id p ts = any (λ t. str_eq t.id id && p t) ts

abbrev pub new_thread : ℕ → Kind → String → String → Option String → Thread
new_thread now kind id ref_key title = record {
  id = id;
  kind = kind;
  ref_key = ref_key;
  title = title;
  status = opened;
  created_at = now;
  closed_at = none;
  closed_reason = none;
  proposal_hash = none;
}

-- A new row stands at the end of the table.
unfoldable pub create_thread_if_missing :
    ℕ → Kind → String → String → Option String → Threads → Threads × Bool
unfolding get_thread
create_thread_if_missing now kind id ref_key title ts = elim (get_thread id ts) [
  | some _ ↦ (ts, false)
  | none ↦ (ts ++ (new_thread now kind id ref_key title ∷ []), true)
]

abbrev pub is_open_of : Kind → Thread → Bool
is_open_of kind t = same_kind t.kind kind && not (is_closed t.status)

unfoldable pub get_open_thread_ids : Kind → Threads → List String
get_open_thread_ids kind [] = []
get_open_thread_ids kind (t ∷ ts) =
    let rest = get_open_thread_ids kind ts in if is_open_of kind t then t.id ∷ rest else rest

unfoldable pub close_thread : ℕ → String → String → Threads → Threads
unfolding update_thread
close_thread now id reason ts =
    update_thread id (λ t. not (is_closed t.status))
      (λ t. record t { status = closed; closed_at = some now; closed_reason = some reason }) ts

abbrev pub reopened : Thread → Thread
reopened t = record t { status = opened; closed_at = none; closed_reason = none }

unfoldable pub reopen_thread : String → Threads → Threads × Bool
unfolding update_thread updates
reopen_thread id ts = (
  update_thread id (λ t. is_closed t.status) reopened ts,
  updates id (λ t. is_closed t.status) ts,
)

abbrev pub has_no_hash : Thread → Bool
has_no_hash t = elim t.proposal_hash [ none ↦ true | some _ ↦ false ]

-- Set once; a blank hash sets nothing.
unfoldable pub set_thread_proposal_hash : String → Text → Threads → Threads × Bool
unfolding update_thread updates
set_thread_proposal_hash id hash ts = if is_empty hash then (ts, false) else (
  update_thread id has_no_hash (λ t. record t { proposal_hash = some (to_lower_case hash) }) ts,
  updates id has_no_hash ts,
)

abbrev pub has_other_title : String → Thread → Bool
has_other_title title t = elim t.title [ none ↦ true | some old ↦ not (str_eq old title) ]

unfoldable pub set_thread_title : String → String → Threads → Threads × Bool
unfolding update_thread updates
set_thread_title id title ts = if str_eq title "" then (ts, false) else (
  update_thread id (has_other_title title) (λ t. record t { title = some title }) ts,
  updates id (has_other_title title) ts,
)
