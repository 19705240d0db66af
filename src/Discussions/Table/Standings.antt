-- ===== src/Discussions/Table/Standings.antt =====
-- What each statement on the table does to the standing of a thread: whether it is open, or closed
-- and why.
use mathlib.Core.Option
use pdexplorer.Prelude.{
  ℕ, ◌≡◌, refl, Bool, not, Option, none, some, [], ◌∷◌, ◌++◌, String, str_eq, eq_iff, if◌then◌else◌,
  arith,
}
use pdexplorer.Discussions.Table.{
  Kind, Thread, Threads, ThreadStatus, closed, is_closed, get_thread, update_thread,
  create_thread_if_missing, new_thread, close_thread, reopen_thread, reopened,
}

abbrev pub Standing : Type 0
Standing = ThreadStatus × Option String

abbrev pub standing_of : Thread → Standing
standing_of t = (t.status, t.closed_reason)

-- The standing of a thread, where there is one.
abbrev pub standing : String → Threads → Option Standing
standing id ts = Option.map standing_of (get_thread id ts)

-- The kind of a thread, where there is one.
abbrev pub kind_at : String → Threads → Option Kind
kind_at id ts = Option.map (λ (t : Thread). t.kind) (get_thread id ts)

pub get_thread-update_thread :
    (id j : String) (p : Thread → Bool) (change : Thread → Thread)
    → ((t : Thread) → (change t).id ≡ t.id)
    → (ts : Threads)
    → get_thread j (update_thread id p change ts) ≡ (
        if str_eq id j
        then Option.map (λ t. if p t then change t else t) (get_thread j ts)
        else get_thread j ts)
unfolding get_thread update_thread
get_thread-update_thread id j p change keeps [] = ground arith
get_thread-update_thread id j p change keeps (t ∷ ts) = ground (
  arith,
  keeps t,
  eq_iff t.id id,
  eq_iff t.id j,
  eq_iff id j,
  get_thread-update_thread id j p change keeps ts,
)

pub get_thread-append :
    (j : String) (ts : Threads) (t : Thread)
    → get_thread j (ts ++ (t ∷ []))
      ≡ elim (get_thread j ts) [ some u ↦ some u | none ↦ if str_eq t.id j then some t else none ]
unfolding get_thread
get_thread-append j [] t = ground arith
get_thread-append j (u ∷ us) t = ground (arith, get_thread-append j us t)

ruleset same_id = (arith, eq_iff)

pub get_thread-create :
    (now : ℕ) (kind : Kind) (id ref_key : String) (title : Option String) (j : String)
    (ts : Threads)
    → get_thread j (create_thread_if_missing now kind id ref_key title ts).0
      ≡ elim (get_thread j ts) [
        | some u ↦ some u
        | none ↦ if str_eq id j then some (new_thread now kind id ref_key title) else none
      ]
unfolding create_thread_if_missing
get_thread-create now kind id ref_key title j ts =
    ground (arith, eq_iff id j, get_thread-append j ts (new_thread now kind id ref_key title))

-- A statement about one thread leaves every other as it is.
pub get_thread-close :
    (now : ℕ) (id reason j : String) (ts : Threads)
    → get_thread j (close_thread now id reason ts) ≡ (
        if str_eq id j
        then Option.map
            (λ (t : Thread).
              if not (is_closed t.status)
              then record t { status = closed; closed_at = some now; closed_reason = some reason }
              else t)
            (get_thread j ts)
        else get_thread j ts)
unfolding close_thread
get_thread-close now id reason j ts =
    get_thread-update_thread id j (λ t. not (is_closed t.status)) _ (λ t. refl) ts

pub get_thread-reopen :
    (id j : String) (ts : Threads)
    → get_thread j (reopen_thread id ts).0 ≡ (
        if str_eq id j
        then Option.map
            (λ (t : Thread). if is_closed t.status then reopened t else t)
            (get_thread j ts)
        else get_thread j ts)
unfolding reopen_thread
get_thread-reopen id j ts =
    get_thread-update_thread id j (λ t. is_closed t.status) reopened (λ t. refl) ts

-- The keys of the table are its threads' ids, each once.
abbrev pub UniqueIds : Threads → Type 0
UniqueIds [] = Unit
UniqueIds (t ∷ ts) = (get_thread t.id ts ≡ none) × UniqueIds ts

pub update_thread-UniqueIds :
    (id : String) (p : Thread → Bool) (change : Thread → Thread)
    → ((t : Thread) → (change t).id ≡ t.id)
    → (ts : Threads) → UniqueIds ts
    → UniqueIds (update_thread id p change ts)
unfolding update_thread
update_thread-UniqueIds id p change keeps [] u = tt
update_thread-UniqueIds id p change keeps (t ∷ ts) u = ground (
  arith,
  keeps t,
  get_thread-update_thread id t.id p change keeps ts,
  update_thread-UniqueIds id p change keeps ts,
)

append-UniqueIds :
    (ts : Threads) (t : Thread)
    → UniqueIds ts
    → get_thread t.id ts ≡ none
    → UniqueIds (ts ++ (t ∷ []))
unfolding get_thread
append-UniqueIds [] t u h = (refl, tt)
append-UniqueIds (x ∷ xs) t u h =
    ground (
      arith,
      eq_iff x.id t.id,
      eq_iff t.id x.id,
      get_thread-append x.id xs t,
      append-UniqueIds xs t,
    )

pub create-UniqueIds :
    (now : ℕ) (kind : Kind) (id ref_key : String) (title : Option String) (ts : Threads)
    → UniqueIds ts
    → UniqueIds (create_thread_if_missing now kind id ref_key title ts).0
unfolding create_thread_if_missing
create-UniqueIds now kind id ref_key title ts u =
    ground (arith, append-UniqueIds ts (new_thread now kind id ref_key title))

pub close-UniqueIds :
    (now : ℕ) (id reason : String) (ts : Threads)
    → UniqueIds ts
    → UniqueIds (close_thread now id reason ts)
unfolding close_thread
close-UniqueIds now id reason ts u = update_thread-UniqueIds id _ _ (λ t. refl) ts u

pub reopen-UniqueIds :
    (id : String) (ts : Threads) → UniqueIds ts → UniqueIds (reopen_thread id ts).0
unfolding reopen_thread
reopen-UniqueIds id ts u = update_thread-UniqueIds id _ _ (λ t. refl) ts u
