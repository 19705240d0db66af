-- ===== src/Indexer/ScanQueue/Retry.antt =====
-- `getScanFailures` and `requeueExhaustedScanFailures` of db.js: which rows are tried again.
use pdexplorer.Prelude.{
  ℕ, ◌+◌, ◌≤◌, ◌<◌, ◌≡◌, ◌⊎◌, refl, ◌∙◌, ap, inl, inr, Bool, true, ◌&&◌, some, List, [], ◌∷◌,
  String, str_eq, eq_iff, ltb, leb, arith, filter_by, length, take, any, Bool-cases, if◌then◌else◌,
  In, take-In, take-all, filter_by-In, In-filter_by, length-take, length-filter_by-le,
}
use pdexplorer.Prelude.Sort.{sort_by, sort_by-In, length-sort_by}
use pdexplorer.Indexer.ScanQueue.{Failure, has_key, row_at, get_scan_failures, requeue_exhausted}
use pdexplorer.Indexer.ScanQueue.Rows.{IsKeyed, updated, row_at-update_where, has_key-eq}
use pdexplorer.Indexer.ScanQueue.Queueing.{row_at-has_key}

abbrev older : Failure → Failure → Bool
older a b = leb a.last_at b.last_at

abbrev eligible : String → ℕ → Failure → Bool
eligible i max_attempts r = str_eq r.indexer i && ltb r.attempts max_attempts

-- A retry batch holds only rows of its indexer that are below the cap; it has `limit` rows at most,
-- and where that is room for all of them it holds every such row.
pub get_scan_failures-In :
    (i : String) (limit max_attempts : ℕ) (table : List Failure) (r : Failure)
    → (In r (get_scan_failures i limit max_attempts table)
        → In r table × (r.indexer ≡ i) × (r.attempts < max_attempts))
      × (length (get_scan_failures i limit max_attempts table) ≤ limit)
      × (length table ≤ limit
          → In r table
          → r.indexer ≡ i
          → r.attempts < max_attempts
          → In r (get_scan_failures i limit max_attempts table))
unfolding get_scan_failures
get_scan_failures-In i limit max_attempts table r = (
  λ m.
      let held =
        filter_by-In (eligible i max_attempts) r table
          ((sort_by-In older r mine).0 (take-In limit r (sort_by older mine) m)) in
      ground (arith, held, eq_iff r.indexer i),
  omega (arith, length-take limit (sort_by older mine)),
  λ room m e lt.
      rw
        (take-all limit (sort_by older mine) (
          omega (
            arith,
            length-sort_by older mine,
            length-filter_by-le (eligible i max_attempts) table,
          )))
        ((sort_by-In older r mine).1
          (In-filter_by (eligible i max_attempts) r table m (ground (arith, eq_iff r.indexer i)))),
)
  where
    mine : List Failure
    mine = filter_by (eligible i max_attempts) table

-- Under unique keys a row of the table is the row of its key.
row_at-In :
    (r : Failure) (table : List Failure)
    → IsKeyed table
    → In r table
    → row_at r.indexer r.block table ≡ some r
unfolding row_at
row_at-In r [] k m = elim m [ ]
row_at-In r (x ∷ xs) k (inl e) = ground (arith, e, eq_iff r.indexer r.indexer)
row_at-In r (x ∷ xs) k (inr m) = elim (Bool-cases (has_key r.indexer r.block x)) [
  | inl e ↦ ground (
    arith,
    e,
    row_at-In r xs k.1 m,
    k.0,
    rw ((has_key-eq r.indexer r.block x e).0, (has_key-eq r.indexer r.block x e).1) at k.0,
  )
  | inr e ↦ ground (arith, e, row_at-In r xs k.1 m)
]

abbrev spent : ℕ → ℕ → ℕ → Failure → Bool
spent now max_attempts older_than r =
    leb max_attempts r.attempts && ltb (r.last_at + older_than) now

-- A row that the amnesty picks has exhausted its attempts, long enough ago.
chosen-spent :
    (now max_attempts older_than limit : ℕ) (r : Failure) (i : String) (b : ℕ)
    (table chosen : List Failure)
    → IsKeyed table
    → ((x : Failure) → In x chosen → In x table × (spent now max_attempts older_than x ≡ true))
    → row_at i b table ≡ some r
    → any (has_key i b) chosen ≡ true
    → spent now max_attempts older_than r ≡ true
chosen-spent now max_attempts older_than limit r i b table [] k sub h e = cc
chosen-spent now max_attempts older_than limit r i b table (x ∷ xs) k sub h e =
    elim (Bool-cases (has_key i b x)) [
      | inl found ↦
          let held = sub x (inl refl) in
          let same =
            rw ((has_key-eq i b x found).0, (has_key-eq i b x found).1) at
              (row_at-In x table k held.0) in
          ground (arith, held.1, same, h)
      | inr other ↦
          chosen-spent now max_attempts older_than limit r i b table xs k (λ y m. sub y (inr m)) h
            (ground arith)
    ]

-- On a table with no two rows of one key, the amnesty leaves every row as it is, or gives its
-- attempts back, and this only to a row that had exhausted them and was last tried before the
-- cutoff.
pub requeue_exhausted_lem :
    (now max_attempts older_than limit : ℕ) (table : List Failure) (i : String) (b : ℕ)
    (r : Failure)
    → IsKeyed table
    → row_at i b table ≡ some r
    → (row_at i b (requeue_exhausted now max_attempts older_than limit table).0 ≡ some r)
      ⊎ ((row_at i b (requeue_exhausted now max_attempts older_than limit table).0
            ≡ some (record r { attempts = 0 }))
          × (max_attempts ≤ r.attempts)
          × (r.last_at + older_than < now))
unfolding requeue_exhausted
requeue_exhausted_lem now max_attempts older_than limit table i b r k h =
    elim (Bool-cases (any (has_key r.indexer r.block) chosen)) [
      | inl e ↦
          let old =
            chosen-spent now max_attempts older_than limit r i b table chosen k chosen-In h
              (rw (key.0, key.1) at e) in
          inr (ground (arith, e, after), ground arith, ground arith)
      | inr e ↦ inl (ground (arith, e, after))
    ]
  where
    chosen : List Failure
    chosen = take limit (sort_by older (filter_by (spent now max_attempts older_than) table))

    key : (r.indexer ≡ i) × (r.block ≡ b)
    key = has_key-eq i b r (row_at-has_key i b table h)

    chosen-In :
        (x : Failure) → In x chosen → In x table × (spent now max_attempts older_than x ≡ true)
    chosen-In x m = filter_by-In (spent now max_attempts older_than) x table (
        (sort_by-In older x (filter_by (spent now max_attempts older_than) table)).0
          (take-In limit x _ m))

    after :
        row_at i b (requeue_exhausted now max_attempts older_than limit table).0
        ≡ some (if any (has_key r.indexer r.block) chosen then record r { attempts = 0 } else r)
    after =
        row_at-update_where (λ x. any (has_key x.indexer x.block) chosen)
          (λ x. record x { attempts = 0 }) i b table (λ x. (refl, refl))
        ∙ ap
            (updated (λ x. any (has_key x.indexer x.block) chosen) (λ x. record x { attempts = 0 }))
            h
