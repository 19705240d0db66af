-- ===== src/Discussions/Reconcile/Exact.antt =====
-- What `reconcileThreads` makes of the standing of each thread, told thread by thread.
use mathlib.Core.Option
use pdexplorer.Prelude.{
  ℕ, ◌≡◌, refl, ◌∙◌, Bool, true, false, ◌&&◌, not, Option, none, some, List, [], ◌∷◌, String,
  str_eq, eq_iff, any, if◌then◌else◌, Bool-cases, inl, inr, arith,
}
use pdexplorer.Discussions.Table.{
  Kind, Thread, Threads, opened, closed, is_closed, is_open_of, get_thread, get_open_thread_ids,
  close_thread,
}
use pdexplorer.Discussions.Table.Standings.{
  Standing, standing, standing_of, UniqueIds, get_thread-close,
}
use pdexplorer.Discussions.Reconcile.{
  Item, Changes, keep_item, keep_items, is_active, close_one, close_missing, reason_for,
  reconcile_threads, no_changes,
}
use pdexplorer.Discussions.Reconcile.Step.{
  heal, listed, standing-keep_item, get_thread-keep_item, keep_item-UniqueIds,
}

listed_twice :
    (kind : Kind) (trusted : Bool) (o : Option Standing)
    → listed kind trusted (some (listed kind trusted o)) ≡ listed kind trusted o
listed_twice kind trusted none = ground arith
listed_twice kind trusted (some s) = ground arith

module _ (now : ℕ) (kind : Kind) (trusted : Bool) where
  pub standing-keep_items :
      (its : List Item) (j : String) (ts : Threads) (out : Changes)
      → standing j (keep_items now kind trusted its (ts, out)).0
        ≡ (if is_active its j then some (listed kind trusted (standing j ts)) else standing j ts)
  unfolding keep_items
  standing-keep_items [] j ts out = refl
  standing-keep_items (it ∷ its) j ts out =
      let st = keep_item now kind trusted it (ts, out) in
      standing-keep_items its j st.0 st.1
      ∙ rw (standing-keep_item now kind trusted it ts out j) (elim (Bool-cases (str_eq it.id j)) [
        | inl e ↦ rw e (ground (arith, listed_twice kind trusted (standing j ts)))
        | inr e ↦ rw e
      ])

  get_thread-keep_items :
      (its : List Item) (j : String) (ts : Threads) (out : Changes)
      → is_active its j ≡ false
      → get_thread j (keep_items now kind trusted its (ts, out)).0 ≡ get_thread j ts
  unfolding keep_items
  get_thread-keep_items [] j ts out h = refl
  get_thread-keep_items (it ∷ its) j ts out h =
      let st = keep_item now kind trusted it (ts, out) in
      ground (
        arith,
        get_thread-keep_items its j st.0 st.1,
        get_thread-keep_item now kind trusted it ts out j,
      )

  keep_items-UniqueIds :
      (its : List Item) (ts : Threads) (out : Changes)
      → UniqueIds ts
      → UniqueIds (keep_items now kind trusted its (ts, out)).0
  unfolding keep_items
  keep_items-UniqueIds [] ts out u = u
  keep_items-UniqueIds (it ∷ its) ts out u =
      let st = keep_item now kind trusted it (ts, out) in
      keep_items-UniqueIds its st.0 st.1 (keep_item-UniqueIds now kind trusted it ts out u)

-- An open thread is closed; a closed one keeps its reason.
abbrev pub shut : String → Standing → Standing
shut reason s = if is_closed s.0 then s else (closed, some reason)

shut_twice : (reason : String) (s : Standing) → shut reason (shut reason s) ≡ shut reason s
shut_twice reason s = ground arith

module _ (now : ℕ) (kind : Kind) (items : List Item) (close_reason : String → Option String) where
  abbrev reason_of : String → String
  reason_of j = reason_for kind close_reason j

  standing-close :
      (id reason j : String) (ts : Threads)
      → standing j (close_thread now id reason ts)
        ≡ (if str_eq id j then Option.map (shut reason) (standing j ts) else standing j ts)
  standing-close id reason j ts = ground (arith, get_thread-close now id reason j ts)

  standing-close_one :
      (id j : String) (ts : Threads) (out : Changes)
      → standing j (close_one now kind items close_reason id (ts, out)).0 ≡ (
          if str_eq id j && not (is_active items j)
          then Option.map (shut (reason_of j)) (standing j ts)
          else standing j ts)
  unfolding close_one
  standing-close_one id j ts out = elim (Bool-cases (str_eq id j)) [
    | inl e ↦
        let same : id ≡ j = (eq_iff id j).0 e in
        rw (e, same) (ground (arith, e, standing-close j (reason_of j) j ts, eq_iff j j))
    | inr e ↦ rw e (ground (arith, standing-close id (reason_of id) j ts))
  ]

  standing-close_missing :
      (ids : List String) (j : String) (ts : Threads) (out : Changes)
      → standing j (close_missing now kind items close_reason ids (ts, out)).0 ≡ (
          if any (λ id. str_eq id j) ids && not (is_active items j)
          then Option.map (shut (reason_of j)) (standing j ts)
          else standing j ts)
  unfolding close_missing
  standing-close_missing [] j ts out = refl
  standing-close_missing (id ∷ ids) j ts out =
      let st = close_one now kind items close_reason id (ts, out) in
      standing-close_missing ids j st.0 st.1
      ∙ rw (standing-close_one id j ts out) (ground (arith, shut_twice (reason_of j)))

-- Where ids are unique, the open ids of a kind are those of its open threads.
abbrev is_open_in : Kind → Option Thread → Bool
is_open_in kind none = false
is_open_in kind (some t) = is_open_of kind t

open_ids_lem :
    (kind : Kind) (j : String) (ts : Threads)
    → UniqueIds ts
    → any (λ id. str_eq id j) (get_open_thread_ids kind ts) ≡ is_open_in kind (get_thread j ts)
unfolding get_open_thread_ids get_thread
open_ids_lem kind j [] u = refl
open_ids_lem kind j (t ∷ ts) u = ground (arith, eq_iff t.id j, open_ids_lem kind j ts)

-- The standing that a reconcile Settles on, from the thread as it was.
abbrev pub settled : Kind → Bool → Bool → String → Option Thread → Option Standing
settled kind trusted active reason none = if active then some (opened, none) else none
settled kind trusted active reason (some t) = some (
    if active
    then (if trusted then heal kind (standing_of t) else standing_of t)
    else if trusted && is_open_of kind t
    then (closed, some reason)
    else standing_of t)

module _ (now : ℕ) (kind : Kind) (items : List Item) (close_reason : String → Option String)
    (ts : Threads) (u : UniqueIds ts) (j : String) where
  abbrev Settles : Bool → Type 0
  Settles trusted =
      standing j (reconcile_threads now kind items trusted close_reason ts).0
      ≡ settled kind trusted (is_active items j) (reason_for kind close_reason j) (get_thread j ts)

  Settles-untrusted : Settles false
  unfolding reconcile_threads
  Settles-untrusted =
      standing-keep_items now kind false items j ts (no_changes true) ∙ ground (arith)

  Settles-trusted : Settles true
  unfolding reconcile_threads
  Settles-trusted =
      let st = keep_items now kind true items (ts, no_changes false) in
      standing-close_missing now kind items close_reason (get_open_thread_ids kind st.0) j st.0 st.1
      ∙ rw
          (open_ids_lem kind j st.0
            (keep_items-UniqueIds now kind true items ts (no_changes false) u))
          (elim (Bool-cases (is_active items j)) [
            | inl e ↦
                ground (arith, e, standing-keep_items now kind true items j ts (no_changes false))
            | inr e ↦
                rw (get_thread-keep_items now kind true items j ts (no_changes false) e)
                  (ground (arith, e))
          ])

-- In a table with unique ids: after the reconcile of a kind, whatever the list of the chain, a thread
-- of an item on the list is open where it was missing, where it was open, and, after a trusted read,
-- where this module had closed it; an open thread of the kind that is not on the list is closed by a
-- trusted read, for the reason that is given; every other thread stands as it stood.
pub reconcile_threads_exact :
    (now : ℕ) (kind : Kind) (items : List Item) (trusted : Bool)
    (close_reason : String → Option String) (ts : Threads)
    → UniqueIds ts
    → (j : String)
    → standing j (reconcile_threads now kind items trusted close_reason ts).0
      ≡ settled kind trusted (is_active items j) (reason_for kind close_reason j) (get_thread j ts)
reconcile_threads_exact now kind items true close_reason ts u j =
    Settles-trusted now kind items close_reason ts u j
reconcile_threads_exact now kind items false close_reason ts u j =
    Settles-untrusted now kind items close_reason ts u j
