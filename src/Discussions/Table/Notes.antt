-- ===== src/Discussions/Table/Notes.antt =====
-- The hash and the title that a read adds to a thread: neither changes another thread, nor the kind
-- or the standing of its own.
use pdexplorer.Prelude.{
  ◌≡◌, refl, Bool, false, inl, inr, Bool-cases, [], ◌∷◌, String, str_eq, arith,
}
use pdexplorer.Prelude.Text.{Text, is_empty}
use pdexplorer.Discussions.Table.{
  Thread, Threads, get_thread, update_thread, set_thread_proposal_hash, set_thread_title,
  has_no_hash, has_other_title,
}
use pdexplorer.Discussions.Table.Standings.{
  standing, standing_of, get_thread-update_thread, UniqueIds, update_thread-UniqueIds,
}

module _ (id j : String) (p : Thread → Bool) (change : Thread → Thread)
    (keeps : (t : Thread) → (change t).id ≡ t.id)
    (same : (t : Thread) → standing_of (change t) ≡ standing_of t) where
  update-standing : (ts : Threads) → standing j (update_thread id p change ts) ≡ standing j ts
  unfolding get_thread update_thread
  update-standing [] = refl
  update-standing (t ∷ ts) = ground (arith, keeps t, same t, update-standing ts)

update-other :
    (id j : String) (p : Thread → Bool) (change : Thread → Thread)
    → ((t : Thread) → (change t).id ≡ t.id)
    → (ts : Threads) → str_eq id j ≡ false
    → get_thread j (update_thread id p change ts) ≡ get_thread j ts
update-other id j p change keeps ts h = rw (get_thread-update_thread id j p change keeps ts) (rw h)

pub standing-set_hash :
    (id : String) (hash : Text) (j : String) (ts : Threads)
    → standing j (set_thread_proposal_hash id hash ts).0 ≡ standing j ts
unfolding set_thread_proposal_hash
standing-set_hash id hash j ts = elim (Bool-cases (is_empty hash)) [
  | inl e ↦ rw e
  | inr e ↦ rw e (update-standing id j has_no_hash _ (λ t. refl) (λ t. refl) ts)
]

pub standing-set_title :
    (id title j : String) (ts : Threads)
    → standing j (set_thread_title id title ts).0 ≡ standing j ts
unfolding set_thread_title
standing-set_title id title j ts = elim (Bool-cases (str_eq title "")) [
  | inl e ↦ rw e
  | inr e ↦ rw e (update-standing id j (has_other_title title) _ (λ t. refl) (λ t. refl) ts)
]

pub get_thread-set_hash :
    (id : String) (hash : Text) (j : String) (ts : Threads)
    → str_eq id j ≡ false
    → get_thread j (set_thread_proposal_hash id hash ts).0 ≡ get_thread j ts
unfolding set_thread_proposal_hash
get_thread-set_hash id hash j ts h = elim (Bool-cases (is_empty hash)) [
  | inl e ↦ rw e
  | inr e ↦ rw e (update-other id j has_no_hash _ (λ t. refl) ts h)
]

pub get_thread-set_title :
    (id title j : String) (ts : Threads)
    → str_eq id j ≡ false
    → get_thread j (set_thread_title id title ts).0 ≡ get_thread j ts
unfolding set_thread_title
get_thread-set_title id title j ts h = elim (Bool-cases (str_eq title "")) [
  | inl e ↦ rw e
  | inr e ↦ rw e (update-other id j (has_other_title title) _ (λ t. refl) ts h)
]

pub set_hash-UniqueIds :
    (id : String) (hash : Text) (ts : Threads)
    → UniqueIds ts
    → UniqueIds (set_thread_proposal_hash id hash ts).0
unfolding set_thread_proposal_hash
set_hash-UniqueIds id hash ts u = elim (Bool-cases (is_empty hash)) [
  | inl e ↦ rw e u
  | inr e ↦ rw e (update_thread-UniqueIds id has_no_hash _ (λ t. refl) ts u)
]

pub set_title-UniqueIds :
    (id title : String) (ts : Threads) → UniqueIds ts → UniqueIds (set_thread_title id title ts).0
unfolding set_thread_title
set_title-UniqueIds id title ts u = elim (Bool-cases (str_eq title "")) [
  | inl e ↦ rw e u
  | inr e ↦ rw e (update_thread-UniqueIds id (has_other_title title) _ (λ t. refl) ts u)
]
