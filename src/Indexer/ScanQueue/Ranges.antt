-- ===== src/Indexer/ScanQueue/Ranges.antt =====
-- `queueRangeIfAbsent` of lib/scan-queue.js: one transaction over a range of heights.
use pdexplorer.Prelude.{
  ℕ, zero, suc, ◌+◌, ◌-◌, ◌≤◌, ◌≡◌, refl, inl, inr, ◌⊎◌, none, true, false, not, ◌&&◌, Option, some,
  List, [], ◌∷◌, String, str_eq, ltb, leb, ◌==◌, arith, length, any, Bool-cases, if◌then◌else◌,
}
use pdexplorer.Prelude.Int.{ℤ, pos, negsuc, min_ℤ, max_ℤ, min_ℤ_comm, max_ℤ_comm}
use pdexplorer.Indexer.SkipTail.{range_from}
use pdexplorer.Indexer.ScanQueue.{
  Failure, row_at, message, fresh, queue_one_if_absent, Reply, fine, statement_fails,
  transaction_fails, Replies, Connection, undone, rollback, Ran, done, threw, insert_range,
  commit_range, queue_heights, queue_between, queue_range_if_absent, queueable_indexers, max_safe,
  ok, err, QueueError,
}
use pdexplorer.Indexer.ScanQueue.Rows.{upserted}
use pdexplorer.Indexer.ScanQueue.Queueing.{row_at-queue}

Reply-cases : (x : Reply) → (x ≡ fine) ⊎ ((x ≡ statement_fails) ⊎ (x ≡ transaction_fails))
Reply-cases fine = inl refl
Reply-cases statement_fails = inr (inl refl)
Reply-cases transaction_fails = inr (inr refl)

-- Where no insert fails the loop ends in a table; `m` counts the new rows.
insert_range-total :
    (a : Replies) (now : ℕ) (i : String) (reason : Option (List ℕ)) (ns : List ℕ) (c : Connection)
    (m : ℕ)
    → ((n : ℕ) → a.insert_at n ≡ fine)
    → (c' : Connection) × (m' : ℕ) × (insert_range a now i reason ns c m ≡ done c' m')
      × (m ≤ m')
      × (m' ≤ m + length ns)
unfolding insert_range
insert_range-total a now i reason [] c m h = (c, m, refl, omega arith, omega arith)
insert_range-total a now i reason (n ∷ ns) c m h =
    let (table', new) = queue_one_if_absent now i n reason c.table in
    let step : ℕ = if new then m + 1 else m in
    let (d, m', e, lo, hi) =
      insert_range-total a now i reason ns (record c { table = table' }) step h in
    (d, m', rw (h n, insert_range) e, ground arith, ground arith)

-- The loop gives every listed height a row, and changes no row that is there.
row_at-insert_range :
    (a : Replies) (now : ℕ) (i : String) (reason : Option (List ℕ)) (ns : List ℕ) (c : Connection)
    (m : ℕ) (c' : Connection) (m' : ℕ) (j : String) (b : ℕ)
    → ((n : ℕ) → a.insert_at n ≡ fine)
    → insert_range a now i reason ns c m ≡ done c' m'
    → row_at j b c'.table ≡ (
        if str_eq i j && any (λ n. n == b) ns
        then upserted (fresh i b 0 (message reason) now) (λ r. r) (row_at j b c.table)
        else row_at j b c.table)
unfolding insert_range
row_at-insert_range a now i reason [] c m c' m' j b all_fine h = ground (arith, h)
row_at-insert_range a now i reason (n ∷ ns) c m c' m' j b all_fine h =
    let (queue_table, new) = queue_one_if_absent now i n reason c.table in
    ground (
      arith,
      row_at-insert_range a now i reason ns (record c { table = queue_table })
          (if new then m + 1 else m) c' m' j b all_fine (rw (all_fine n, insert_range) at h),
      row_at-queue now i n reason j b c.table,
    )

any-range_from : (c lo k : ℕ) → any (λ n. n == c) (range_from lo k) ≡ (leb lo c && ltb c (lo + k))
unfolding range_from
any-range_from c lo zero = ground arith
any-range_from c lo (suc k) = ground (arith, any-range_from c (lo + 1) k)

length-range_from : (lo k : ℕ) → length (range_from lo k) ≡ k
unfolding range_from
length-range_from lo zero = refl
length-range_from lo (suc k) = omega (arith, length-range_from (lo + 1) k)

-- The two ends may be given in either order.
pub queue_range_sym :
    (a : Replies) (now : ℕ) (i : String) (from to : ℤ) (reason : Option (List ℕ)) (c : Connection)
    → queue_range_if_absent a now i from to reason c
      ≡ queue_range_if_absent a now i to from reason c
unfolding queue_range_if_absent
queue_range_sym a now i from to reason c = ground (arith, min_ℤ_comm from to, max_ℤ_comm from to)

-- SQLite does everything that it is told, outside a transaction.
pub record AllFine (a : Replies) (c : Connection) : Type 0 where
  pub begins : a.begin_fails ≡ false
  pub inserts : (n : ℕ) → a.insert_at n ≡ fine
  pub commits : a.on_commit ≡ fine
  pub outside : c.saved ≡ none

queue_range_commits :
    (a : Replies) (now : ℕ) (i : String) (lo hi : ℕ) (reason : Option (List ℕ)) (c : Connection)
    → AllFine a c
    → any (str_eq i) queueable_indexers ≡ true
    → 1 ≤ lo
    → lo ≤ hi
    → hi ≤ max_safe
    → queue_range_if_absent a now i (pos lo) (pos hi) reason c
      ≡ commit_range a (hi + 1 - lo) (
          insert_range a now i reason
            (range_from lo (hi + 1 - lo))
            (record c { saved = some c.table })
            0)
unfolding queue_range_if_absent queue_between queue_heights
queue_range_commits a now i lo hi reason c all_fine known low le high =
    ground (arith, all_fine.begins, all_fine.outside)

-- For an indexer that may be queued, between two safe heights, outside a transaction and where no
-- statement fails: every height of the range gets a row, no row that is there and no other key
-- changes, and the two counts add up to the size of the range.
pub queue_range_lem :
    (a : Replies) (now : ℕ) (i : String) (lo hi : ℕ) (reason : Option (List ℕ)) (c : Connection)
    → AllFine a c
    → any (str_eq i) queueable_indexers ≡ true
    → 1 ≤ lo
    → lo ≤ hi
    → hi ≤ max_safe
    → (added : ℕ) × (added ≤ hi + 1 - lo)
      × ((queue_range_if_absent a now i (pos lo) (pos hi) reason c).1
          ≡ ok (record { added = added; already_queued = hi + 1 - lo - added }))
      × ((j : String) (b : ℕ)
          → row_at j b (queue_range_if_absent a now i (pos lo) (pos hi) reason c).0.table ≡ (
              if str_eq i j && (leb lo b && leb b hi)
              then upserted (fresh i b 0 (message reason) now) (λ r. r) (row_at j b c.table)
              else row_at j b c.table))
unfolding commit_range
queue_range_lem a now i lo hi reason c all_fine known low le high =
    let heights = range_from lo (hi + 1 - lo) in
    let begun = record c { saved = some c.table } in
    let (c', added, e, _, bound) =
      insert_range-total a now i reason heights begun 0 all_fine.inserts in
    let run = queue_range_commits a now i lo hi reason c all_fine known low le high in
    (
      added,
      omega (arith, length-range_from lo (hi + 1 - lo)),
      rw (run, e, all_fine.commits) refl,
      λ j b.
          rw (run, e, all_fine.commits)
            (ground (
              arith,
              any-range_from b lo (hi + 1 - lo),
              row_at-insert_range a now i reason heights begun 0 c' added j b all_fine.inserts e,
            )),
    )

abbrev pub closed : List Failure → Connection
closed before = record { table = before; saved = none }

-- After an exception the transaction that began with a table is open, or it is undone.
abbrev Within : List Failure → Connection → Type 0
Within before c = (c.saved ≡ some before) ⊎ (c ≡ closed before)

abbrev StaysIn : List Failure → Ran → Type 0
StaysIn before (done c added) = c.saved ≡ some before
StaysIn before (threw c) = Within before c

undone-saved :
    (before : List Failure) (c : Connection) → c.saved ≡ some before → undone c ≡ closed before
undone-saved before c e = rw e refl

rollback-Within :
    (before : List Failure) (c : Connection) → Within before c → rollback c ≡ closed before
unfolding rollback
rollback-Within before c (inl e) = undone-saved before c e
rollback-Within before c (inr e) = rw e refl

insert_range-StaysIn :
    (a : Replies) (now : ℕ) (i : String) (reason : Option (List ℕ)) (ns : List ℕ)
    (before : List Failure) (c : Connection) (m : ℕ)
    → c.saved ≡ some before
    → StaysIn before (insert_range a now i reason ns c m)
unfolding insert_range
insert_range-StaysIn a now i reason [] before c m e = e
insert_range-StaysIn a now i reason (n ∷ ns) before c m e = elim (Reply-cases (a.insert_at n)) [
  | inl f ↦
      let (table', new) = queue_one_if_absent now i n reason c.table in
      rw (f, insert_range, StaysIn)
        (insert_range-StaysIn a now i reason ns before (record c { table = table' })
          (if new then m + 1 else m) e)
  | inr (inl f) ↦ rw (f, insert_range, StaysIn) (inl e)
  | inr (inr f) ↦ rw (f, insert_range, StaysIn) (inr (undone-saved before c e))
]

commit_range-err :
    (a : Replies) (total : ℕ) (before : List Failure) (r : Ran) (e : QueueError)
    → StaysIn before r
    → (commit_range a total r).1 ≡ err e
    → (commit_range a total r).0 ≡ closed before
unfolding commit_range
commit_range-err a total before (threw c) e stays h = rollback-Within before c stays
commit_range-err a total before (done c added) e stays h = elim (Reply-cases a.on_commit) [
  | inl f ↦ absurd (ground (arith, rw f at h))
  | inr (inl f) ↦ rw f (rollback-Within before c (inl stays))
  | inr (inr f) ↦ rw f (rollback-Within before (undone c) (inr (undone-saved before c stays)))
]

queue_heights-err :
    (a : Replies) (now : ℕ) (i : String) (reason : Option (List ℕ)) (ns : List ℕ) (total : ℕ)
    (table : List Failure) (e : QueueError)
    → (queue_heights a now i reason ns total (closed table)).1 ≡ err e
    → (queue_heights a now i reason ns total (closed table)).0 ≡ closed table
unfolding queue_heights
queue_heights-err a now i reason ns total table e h = elim (Bool-cases a.begin_fails) [
  | inl f ↦ rw f refl
  | inr f ↦ rw f (
      commit_range-err a total table _ e
        (insert_range-StaysIn a now i reason ns table (record { table = table; saved = some table })
          0 refl)
        (rw f at h))
]

queue_between-err :
    (a : Replies) (now : ℕ) (i : String) (reason : Option (List ℕ)) (x y : ℤ) (table : List Failure)
    (e : QueueError)
    → (queue_between a now i reason x y (closed table)).1 ≡ err e
    → (queue_between a now i reason x y (closed table)).0 ≡ closed table
unfolding queue_between
queue_between-err a now i reason (negsuc _) y table e h = refl
queue_between-err a now i reason (pos lo) (negsuc _) table e h = refl
queue_between-err a now i reason (pos lo) (pos hi) table e h =
    elim (Bool-cases (leb lo max_safe && leb hi max_safe && leb 1 lo)) [
      | inl f ↦ rw f (
          queue_heights-err a now i reason (range_from lo (hi + 1 - lo)) (hi + 1 - lo) table e
            (rw f at h))
      | inr f ↦ rw f refl
    ]

-- Whatever SQLite answers, outside a transaction: where the queueing of a range throws, the table is what
-- it was before, and no transaction is left open.
pub queue_range_atomic :
    (a : Replies) (now : ℕ) (i : String) (from to : ℤ) (reason : Option (List ℕ))
    (table : List Failure) (e : QueueError)
    → (queue_range_if_absent a now i from to reason (closed table)).1 ≡ err e
    → (queue_range_if_absent a now i from to reason (closed table)).0 ≡ closed table
unfolding queue_range_if_absent
queue_range_atomic a now i from to reason table e h =
    elim (Bool-cases (not (any (str_eq i) queueable_indexers))) [
      | inl f ↦ rw f refl
      | inr f ↦
          rw f
            (queue_between-err a now i reason (min_ℤ from to) (max_ℤ from to) table e (rw f at h))
    ]
