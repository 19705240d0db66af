-- ===== src/Discussions/Reconcile/Step.antt =====
-- What the round of one item of the chain's list makes of the threads, in `reconcileThreads`.
use mathlib.Core.Option
use pdexplorer.Prelude.{
  ℕ, ◌≡◌, ◌∙◌, Bool, true, false, ◌&&◌, not, Option, none, some, String, str_eq, eq_iff,
  if◌then◌else◌, Bool-cases, Option-cases, inl, inr, arith,
}
use pdexplorer.Discussions.Table.{
  Kind, Threads, opened, is_closed, get_thread, create_thread_if_missing, reopen_thread,
}
use pdexplorer.Discussions.Table.Standings.{
  Standing, standing, UniqueIds, get_thread-create, get_thread-reopen, create-UniqueIds,
  reopen-UniqueIds,
}
use pdexplorer.Discussions.Table.Notes.{
  standing-set_hash, standing-set_title, get_thread-set_hash, get_thread-set_title,
  set_hash-UniqueIds, set_title-UniqueIds,
}
use pdexplorer.Discussions.Reconcile.{
  Item, Changes, annotate, annotate_hash, annotate_title, is_auto_close_reason, self_heal,
  keep_item, to_reopen,
}

-- A closed thread of an active item is opened again where the reason is one of this module.
abbrev pub heal : Kind → Standing → Standing
heal kind s = if is_closed s.0 && is_auto_close_reason kind s.1 then (opened, none) else s

-- What a read that lists the item makes of a thread.
abbrev pub listed : Kind → Bool → Option Standing → Standing
listed kind trusted none = (opened, none)
listed kind trusted (some s) = if trusted then heal kind s else s

abbrev has {ℓ} : {A : Type ℓ} → Option A → Bool
has none = false
has (some _) = true

module _ (it : Item) (j : String) where
  standing-hash : (ts : Threads) → standing j (annotate_hash it ts) ≡ standing j ts
  standing-hash ts = elim (Option-cases it.proposal_hash) [
    | inl e ↦ rw e
    | inr (hash, e) ↦ rw e (standing-set_hash it.id hash j ts)
  ]

  standing-title : (ts : Threads) → standing j (annotate_title it ts) ≡ standing j ts
  standing-title ts = elim (Option-cases it.title) [
    | inl e ↦ rw e
    | inr (title, e) ↦ rw e (standing-set_title it.id title j ts)
  ]

  standing-annotate : (ts : Threads) → standing j (annotate it ts) ≡ standing j ts
  unfolding annotate
  standing-annotate ts = elim (Bool-cases it.title_decoded) [
    | inl e ↦ rw e (standing-title (annotate_hash it ts) ∙ standing-hash ts)
    | inr e ↦ rw e (standing-hash ts)
  ]

module _ (it : Item) (j : String) (other : str_eq it.id j ≡ false) where
  get_thread-hash : (ts : Threads) → get_thread j (annotate_hash it ts) ≡ get_thread j ts
  get_thread-hash ts = elim (Option-cases it.proposal_hash) [
    | inl e ↦ rw e
    | inr (hash, e) ↦ rw e (get_thread-set_hash it.id hash j ts other)
  ]

  get_thread-title : (ts : Threads) → get_thread j (annotate_title it ts) ≡ get_thread j ts
  get_thread-title ts = elim (Option-cases it.title) [
    | inl e ↦ rw e
    | inr (title, e) ↦ rw e (get_thread-set_title it.id title j ts other)
  ]

  get_thread-annotate : (ts : Threads) → get_thread j (annotate it ts) ≡ get_thread j ts
  unfolding annotate
  get_thread-annotate ts = elim (Bool-cases it.title_decoded) [
    | inl e ↦ rw e (get_thread-title (annotate_hash it ts) ∙ get_thread-hash ts)
    | inr e ↦ rw e (get_thread-hash ts)
  ]

module _ (it : Item) where
  hash-UniqueIds : (ts : Threads) → UniqueIds ts → UniqueIds (annotate_hash it ts)
  hash-UniqueIds ts u = elim (Option-cases it.proposal_hash) [
    | inl e ↦ rw e u
    | inr (hash, e) ↦ rw e (set_hash-UniqueIds it.id hash ts u)
  ]

  title-UniqueIds : (ts : Threads) → UniqueIds ts → UniqueIds (annotate_title it ts)
  title-UniqueIds ts u = elim (Option-cases it.title) [
    | inl e ↦ rw e u
    | inr (title, e) ↦ rw e (set_title-UniqueIds it.id title ts u)
  ]

  annotate-UniqueIds : (ts : Threads) → UniqueIds ts → UniqueIds (annotate it ts)
  unfolding annotate
  annotate-UniqueIds ts u = elim (Bool-cases it.title_decoded) [
    | inl e ↦ rw e (title-UniqueIds (annotate_hash it ts) (hash-UniqueIds ts u))
    | inr e ↦ rw e (hash-UniqueIds ts u)
  ]

self_heal-threads :
    (kind : Kind) (id : String) (ts : Threads) (out : Changes)
    → (self_heal kind id (ts, out)).0
      ≡ (if to_reopen kind (get_thread id ts) then (reopen_thread id ts).0 else ts)
unfolding self_heal
self_heal-threads kind id ts out = elim (Bool-cases (to_reopen kind (get_thread id ts))) [
  | inl e ↦ rw e
  | inr e ↦ rw e
]

standing-self_heal :
    (kind : Kind) (id j : String) (ts : Threads) (out : Changes)
    → standing j (self_heal kind id (ts, out)).0
      ≡ (if str_eq id j then Option.map (heal kind) (standing j ts) else standing j ts)
standing-self_heal kind id j ts out =
    rw (self_heal-threads kind id ts out) (ground (arith, eq_iff id j, get_thread-reopen id j ts))

get_thread-self_heal :
    (kind : Kind) (id j : String) (ts : Threads) (out : Changes)
    → str_eq id j ≡ false
    → get_thread j (self_heal kind id (ts, out)).0 ≡ get_thread j ts
get_thread-self_heal kind id j ts out h =
    rw (self_heal-threads kind id ts out) (ground (arith, get_thread-reopen id j ts))

self_heal-UniqueIds :
    (kind : Kind) (id : String) (ts : Threads) (out : Changes)
    → UniqueIds ts
    → UniqueIds (self_heal kind id (ts, out)).0
self_heal-UniqueIds kind id ts out u =
    rw (self_heal-threads kind id ts out) (ground (arith, reopen-UniqueIds id ts))

-- Whether a thread of this id has to be made.
create-flag :
    (now : ℕ) (kind : Kind) (id ref_key : String) (title : Option String) (ts : Threads)
    → (create_thread_if_missing now kind id ref_key title ts).1 ≡ not (has (get_thread id ts))
unfolding create_thread_if_missing
create-flag now kind id ref_key title ts = ground arith

module _ (now : ℕ) (kind : Kind) (trusted : Bool) (it : Item) (ts : Threads) (out : Changes) where
  made : Threads
  made = annotate it (create_thread_if_missing now kind it.id it.ref_key it.title ts).0

  keep_item-threads : (keep_item now kind trusted it (ts, out)).0 ≡ (
      if has (get_thread it.id ts) && trusted then (self_heal kind it.id (made, out)).0 else made)
  unfolding keep_item made
  keep_item-threads = ground (arith, create-flag now kind it.id it.ref_key it.title ts)

  standing-made :
      (j : String)
      → standing j made ≡ elim (standing j ts) [
        | some s ↦ some s
        | none ↦ if str_eq it.id j then some (opened, none) else none
      ]
  unfolding made
  standing-made j =
      standing-annotate it j (create_thread_if_missing now kind it.id it.ref_key it.title ts).0
      ∙ ground (arith, get_thread-create now kind it.id it.ref_key it.title j ts)

  pub standing-keep_item :
      (j : String)
      → standing j (keep_item now kind trusted it (ts, out)).0
        ≡ (if str_eq it.id j then some (listed kind trusted (standing j ts)) else standing j ts)
  standing-keep_item j =
      rw keep_item-threads
        (ground (arith, eq_iff it.id j, standing-made j, standing-self_heal kind it.id j made out))

  pub get_thread-keep_item :
      (j : String)
      → str_eq it.id j ≡ false
      → get_thread j (keep_item now kind trusted it (ts, out)).0 ≡ get_thread j ts
  unfolding made
  get_thread-keep_item j h = rw keep_item-threads (
      ground (
        arith,
        get_thread-self_heal kind it.id j made out,
        get_thread-annotate it j h
            (create_thread_if_missing now kind it.id it.ref_key it.title ts).0,
        get_thread-create now kind it.id it.ref_key it.title j ts,
      ))

  pub keep_item-UniqueIds : UniqueIds ts → UniqueIds (keep_item now kind trusted it (ts, out)).0
  unfolding made
  keep_item-UniqueIds u = rw keep_item-threads (
      ground (
        arith,
        self_heal-UniqueIds kind it.id made out,
        annotate-UniqueIds it (create_thread_if_missing now kind it.id it.ref_key it.title ts).0,
        create-UniqueIds now kind it.id it.ref_key it.title ts,
      ))
