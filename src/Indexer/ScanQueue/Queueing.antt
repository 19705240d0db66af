-- ===== src/Indexer/ScanQueue/Queueing.antt =====
-- Recording, queueing and re-arming: what each statement does to the row of every key.
use pdexplorer.Prelude.{
  ℕ, ◌+◌, ◌≡◌, refl, inl, inr, Bool, true, false, ◌&&◌, Option, none, some, List, [], ◌∷◌, String,
  str_eq, eq_iff, ltb, ◌==◌, arith, Bool-cases, Option-cases, if◌then◌else◌,
}
use pdexplorer.Indexer.ScanQueue.{
  Failure, has_key, row_at, update_where, message, fresh, record_scan_failure, queue_one_if_absent,
  rearm_one, queue_or_rearm, Queued, queued, rearmed, pending,
}
use pdexplorer.Indexer.ScanQueue.Rows.{
  IsKeyed, upserted, updated, row_at-upsert, upsert-IsKeyed, row_at-update_where, has_key-eq,
}

abbrev bumped : ℕ → List ℕ → Failure → Failure
bumped now msg r = record r { attempts = r.attempts + 1; last_error = msg; last_at = now }

-- A failure counts one attempt at its own key, keeps the time of the first failure there, and
-- leaves every other key alone.
pub row_at-record :
    (now : ℕ) (i j : String) (b c : ℕ) (err : Option (List ℕ)) (table : List Failure)
    → row_at j c (record_scan_failure now i b err table) ≡ (
        if str_eq i j && (b == c)
        then upserted (fresh i b 1 (message err) now) (bumped now (message err)) (row_at j c table)
        else row_at j c table)
unfolding record_scan_failure
row_at-record now i j b c err table =
    row_at-upsert (fresh i b 1 (message err) now) (bumped now (message err)) j c table
      (λ r. (refl, refl))

pub record-IsKeyed :
    (now : ℕ) (i : String) (b : ℕ) (err : Option (List ℕ)) (table : List Failure)
    → IsKeyed table
    → IsKeyed (record_scan_failure now i b err table)
unfolding record_scan_failure
record-IsKeyed now i b err table = upsert-IsKeyed _ _ table (λ r. (refl, refl))

module _ (now : ℕ) (i : String) (b : ℕ) (reason : Option (List ℕ)) where
  -- Queueing gives an absent key a row with no attempts, and changes no row that is there.
  pub row_at-queue :
      (j : String) (c : ℕ) (table : List Failure)
      → row_at j c (queue_one_if_absent now i b reason table).0 ≡ (
          if str_eq i j && (b == c)
          then upserted (fresh i b 0 (message reason) now) (λ r. r) (row_at j c table)
          else row_at j c table)
  unfolding queue_one_if_absent
  row_at-queue j c table =
      row_at-upsert (fresh i b 0 (message reason) now) (λ r. r) j c table (λ r. (refl, refl))

  pub queue-IsKeyed :
      (table : List Failure) → IsKeyed table → IsKeyed (queue_one_if_absent now i b reason table).0
  unfolding queue_one_if_absent
  queue-IsKeyed table = upsert-IsKeyed _ _ table (λ r. (refl, refl))

  -- Nothing already queued is changed or lost by queueing.
  pub row_at-queue_old :
      (j : String) (c : ℕ) (table : List Failure) {r : Failure}
      → row_at j c table ≡ some r
      → row_at j c (queue_one_if_absent now i b reason table).0 ≡ some r
  row_at-queue_old j c table h = ground (arith, row_at-queue j c table)

  retryable : Failure → Bool
  retryable r = has_key i b r && ltb 0 r.attempts

  rearm_row : Failure → Failure
  rearm_row r = record r { attempts = 0; last_error = message reason; last_at = now }

  no_changes :
      (table : List Failure)
      → row_at i b table ≡ none
      → (update_where retryable rearm_row table).1 ≡ 0
  unfolding row_at update_where retryable
  no_changes [] h = refl
  no_changes (r ∷ rs) h = ground (arith, no_changes rs)

  -- The number of changed rows tells whether the key's row had attempts.
  rearm_changes :
      (table : List Failure) (r : Failure)
      → IsKeyed table
      → row_at i b table ≡ some r
      → ltb 0 (update_where retryable rearm_row table).1 ≡ ltb 0 r.attempts
  unfolding row_at update_where retryable
  rearm_changes [] r k h = cc
  rearm_changes (x ∷ xs) r k h = elim (Bool-cases (has_key i b x)) [
    | inl e ↦
        ground (arith, e, rw ((has_key-eq i b x e).0, (has_key-eq i b x e).1) at k.0, no_changes xs)
    | inr e ↦ ground (arith, e, rearm_changes xs r k.1)
  ]

  queue_added :
      (table : List Failure)
      → (queue_one_if_absent now i b reason table).1
        ≡ elim (row_at i b table) [ none ↦ true | some _ ↦ false ]
  unfolding queue_one_if_absent
  queue_added table = refl

  row_at-rearm :
      (j : String) (c : ℕ) (table : List Failure)
      → row_at j c (rearm_one now i b reason table).0
        ≡ updated retryable rearm_row (row_at j c table)
  unfolding rearm_one retryable rearm_row
  row_at-rearm j c table = row_at-update_where _ _ j c table (λ r. (refl, refl))

  rearmed_iff :
      (table : List Failure) (r : Failure)
      → IsKeyed table
      → row_at i b table ≡ some r
      → (rearm_one now i b reason table).1 ≡ ltb 0 r.attempts
  unfolding rearm_one
  rearmed_iff table r k h = unfold retryable rearm_row in rearm_changes table r k h

-- The row that a lookup gives has the key that was looked up.
pub row_at-has_key :
    (i : String) (b : ℕ) (table : List Failure) {r : Failure}
    → row_at i b table ≡ some r
    → has_key i b r ≡ true
unfolding row_at
row_at-has_key i b [] h = cc
row_at-has_key i b (x ∷ xs) {r} h = ground (arith, row_at-has_key i b xs {r = r})

-- What `queueOrRearm` reports, by the row that the key had.
abbrev pub report : Option Failure → Queued
report none = queued
report (some r) = if ltb 0 r.attempts then rearmed else pending

-- The row of the key afterwards: new, re-armed, or unchanged.
abbrev pub rearmed_row : ℕ → String → ℕ → List ℕ → Option Failure → Failure
rearmed_row now i b msg none = fresh i b 0 msg now
rearmed_row now i b msg (some r) =
    if ltb 0 r.attempts then record r { attempts = 0; last_error = msg; last_at = now } else r

row_at-rearm_held :
    (now : ℕ) (i : String) (b : ℕ) (reason : Option (List ℕ)) (table : List Failure) (r : Failure)
    → row_at i b table ≡ some r
    → row_at i b (rearm_one now i b reason table).0
      ≡ some (rearmed_row now i b (message reason) (some r))
unfolding retryable rearm_row
row_at-rearm_held now i b reason table r e =
    ground (arith, e, row_at-rearm now i b reason i b table, row_at-has_key i b table e)

row_at-rearm_other :
    (now : ℕ) (i j : String) (b c : ℕ) (reason : Option (List ℕ)) (table : List Failure)
    → (str_eq i j && (b == c)) ≡ false
    → row_at j c (rearm_one now i b reason table).0 ≡ row_at j c table
unfolding retryable rearm_row
row_at-rearm_other now i j b c reason table h = elim (Option-cases (row_at j c table)) [
  | inl e ↦ ground (arith, e, row_at-rearm now i b reason j c table)
  | inr (r, e) ↦ ground (
    arith,
    e,
    row_at-rearm now i b reason j c table,
    row_at-has_key j c table e,
    eq_iff r.indexer i,
    eq_iff r.indexer j,
    eq_iff i j,
  )
]

-- On a table with no two rows of one key, queueOrRearm reports what it did, and the row of the key
-- has no attempts afterwards; no other key is changed.
pub queue_or_rearm_lem :
    (now : ℕ) (i : String) (b : ℕ) (reason : Option (List ℕ)) (table : List Failure)
    → IsKeyed table
    → ((queue_or_rearm now i b reason table).1 ≡ report (row_at i b table))
      × (row_at i b (queue_or_rearm now i b reason table).0
          ≡ some (rearmed_row now i b (message reason) (row_at i b table)))
      × ((j : String) (c : ℕ)
          → (str_eq i j && (b == c)) ≡ false
          → row_at j c (queue_or_rearm now i b reason table).0 ≡ row_at j c table)
unfolding queue_or_rearm
queue_or_rearm_lem now i b reason table k = elim (Option-cases (row_at i b table)) [
  | inl e ↦ (
    ground (arith, e, queue_added now i b reason table),
    ground (
      arith,
      e,
      queue_added now i b reason table,
      row_at-queue now i b reason i b table,
      eq_iff i i,
    ),
    λ j c h.
        ground (arith, e, queue_added now i b reason table, row_at-queue now i b reason j c table),
  )
  | inr (r, e) ↦ (
    ground (arith, e, queue_added now i b reason table, old r e),
    ground (
      arith,
      e,
      queue_added now i b reason table,
      row_at-rearm_held now i b reason queue_table r (row_at-queue_old now i b reason i b table e),
    ),
    λ j c h. ground (
      arith,
      e,
      queue_added now i b reason table,
      row_at-rearm_other now i j b c reason queue_table h,
      row_at-queue now i b reason j c table,
    ),
  )
]
  where
    queue_table : List Failure
    queue_table = (queue_one_if_absent now i b reason table).0

    old :
        (r : Failure)
        → row_at i b table ≡ some r
        → (rearm_one now i b reason queue_table).1 ≡ ltb 0 r.attempts
    old r e =
        rearmed_iff now i b reason queue_table r (queue-IsKeyed now i b reason table k)
          (row_at-queue_old now i b reason i b table e)
