-- ===== src/Indexer/ScanQueue.antt =====
-- The retry queue of the indexers: the table `scan_failures` of db.js, with the statements of db.js
-- and lib/scan-queue.js on it. A text is the list of its UTF-16 code units.
pub mod Rows
pub mod Lowest
pub mod Queueing
pub mod Retry
pub mod Ranges
use mathlib.Core.List.{foldl}
use pdexplorer.Prelude.{
  ℕ, zero, suc, ◌+◌, ◌-◌, ◌^◌, ◌≤◌, Bool, true, false, ◌&&◌, ◌||◌, not, Option, none, some, List,
  [], ◌∷◌, ◌++◌, String, str_eq, ltb, leb, ◌==◌, take, length, filter_by, any, map, min, max,
  if◌then◌else◌,
}
use pdexplorer.Prelude.Int.{ℤ, pos, negsuc, min_ℤ, max_ℤ}
use pdexplorer.Prelude.Sort.{sort_by}
use pdexplorer.Indexer.SkipTail.{range_from}

pub record Failure : Type 0 where
  pub indexer : String
  pub block : ℕ
  pub attempts : ℕ
  pub last_error : List ℕ
  pub first_at : ℕ
  pub last_at : ℕ

-- `String(reason || '').slice(0, 500)`
abbrev pub message : Option (List ℕ) → List ℕ
message none = []
message (some text) = take 500 text

abbrev pub has_key : String → ℕ → Failure → Bool
has_key indexer block r = str_eq r.indexer indexer && r.block == block

-- The row of a primary key.
unfoldable pub row_at : String → ℕ → List Failure → Option Failure
row_at indexer block [] = none
row_at indexer block (r ∷ rs) = if has_key indexer block r then some r else row_at indexer block rs

-- INSERT … ON CONFLICT(indexer, block) DO UPDATE: `change` is the update of the row in conflict.
unfoldable pub upsert : Failure → (Failure → Failure) → List Failure → List Failure
upsert new change [] = new ∷ []
upsert new change (r ∷ rs) =
    if has_key new.indexer new.block r then change r ∷ rs else r ∷ upsert new change rs

-- UPDATE … WHERE: the table and the number of changed rows.
unfoldable pub update_where :
    (Failure → Bool) → (Failure → Failure) → List Failure → List Failure × ℕ
update_where p change [] = ([], 0)
update_where p change (r ∷ rs) =
    let (rest, n) = update_where p change rs in
    if p r then (change r ∷ rest, n + 1) else (r ∷ rest, n)

abbrev pub fresh : String → ℕ → ℕ → List ℕ → ℕ → Failure
fresh indexer block attempts msg now = record {
  indexer = indexer;
  block = block;
  attempts = attempts;
  last_error = msg;
  first_at = now;
  last_at = now;
}

unfoldable pub record_scan_failure : ℕ → String → ℕ → Option (List ℕ) → List Failure → List Failure
unfolding upsert
record_scan_failure now indexer block err table =
    upsert (fresh indexer block 1 (message err) now)
      (λ r. record r { attempts = r.attempts + 1; last_error = message err; last_at = now }) table

-- `queueOneIfAbsent`: the table, and whether a row was added.
unfoldable pub queue_one_if_absent :
    ℕ → String → ℕ → Option (List ℕ) → List Failure → List Failure × Bool
unfolding upsert row_at
queue_one_if_absent now indexer block reason table = (
  upsert (fresh indexer block 0 (message reason) now) (λ r. r) table,
  elim (row_at indexer block table) [ none ↦ true | some _ ↦ false ],
)

unfoldable pub rearm_one : ℕ → String → ℕ → Option (List ℕ) → List Failure → List Failure × Bool
unfolding update_where
rearm_one now indexer block reason table =
    let (table', changes) =
      update_where (λ r. has_key indexer block r && ltb 0 r.attempts)
        (λ r. record r { attempts = 0; last_error = message reason; last_at = now }) table in
    (table', ltb 0 changes)

pub data Queued : Type 0 where
  queued rearmed pending : Queued

unfoldable pub queue_or_rearm :
    ℕ → String → ℕ → Option (List ℕ) → List Failure → List Failure × Queued
queue_or_rearm now indexer block reason table =
    let (table', added) = queue_one_if_absent now indexer block reason table in
    if added
    then (table', queued)
    else (let (table'', changed) = rearm_one now indexer block reason table' in
        (table'', (if changed then rearmed else pending)))

unfoldable pub clear_scan_failure : String → ℕ → List Failure → List Failure
clear_scan_failure indexer block table = filter_by (λ r. not (has_key indexer block r)) table

-- `getScanFailures`: rows at one time of `last_at` come in the order of the table.
unfoldable pub get_scan_failures : String → ℕ → ℕ → List Failure → List Failure
get_scan_failures indexer limit max_attempts table = take limit (
    sort_by (λ a b. leb a.last_at b.last_at)
      (filter_by (λ r. str_eq r.indexer indexer && ltb r.attempts max_attempts) table))

-- SELECT MIN(block) … WHERE indexer = ?
unfoldable pub get_lowest_scan_failure : String → List Failure → Option ℕ
get_lowest_scan_failure indexer [] = none
get_lowest_scan_failure indexer (r ∷ rs) =
    let rest = get_lowest_scan_failure indexer rs in
    if str_eq r.indexer indexer
    then elim rest [ none ↦ some r.block | some lo ↦ some (min r.block lo) ]
    else rest

-- `requeueExhaustedScanFailures`: rows are known by their keys, which are unique.
unfoldable pub requeue_exhausted : ℕ → ℕ → ℕ → ℕ → List Failure → List Failure × ℕ
unfolding update_where
requeue_exhausted now max_attempts older_than limit table =
    let chosen = take limit (
      sort_by (λ (a b : Failure). leb a.last_at b.last_at)
        (filter_by
          (λ (r : Failure). leb max_attempts r.attempts && ltb (r.last_at + older_than) now)
          table)) in
    update_where (λ r. any (has_key r.indexer r.block) chosen) (λ r. record r { attempts = 0 })
      table

pub record Counts : Type 0 where
  pub retrying : ℕ
  pub permanent : ℕ
  pub total : ℕ

unfoldable pub count_scan_failures : String → ℕ → List Failure → Counts
count_scan_failures indexer max_attempts table =
    let mine = filter_by (λ (r : Failure). str_eq r.indexer indexer) table in
    record {
      retrying = length (filter_by (λ (r : Failure). ltb r.attempts max_attempts) mine);
      permanent = length (filter_by (λ (r : Failure). leb max_attempts r.attempts) mine);
      total = length mine;
    }

abbrev pub queueable_indexers : List String
queueable_indexers = "governance" ∷ "staking_rewards" ∷ "transactions" ∷ "chain_index" ∷ []

pub data QueueError : Type 0 where
  unknown_indexer invalid_range database_error : QueueError

pub record RangeResult : Type 0 where
  pub added : ℕ
  pub already_queued : ℕ

pub data RangeOutcome : Type 0 where
  ok : RangeResult → RangeOutcome
  err : QueueError → RangeOutcome

-- Number.MAX_SAFE_INTEGER
abbrev pub max_safe : ℕ
max_safe = 2 ^ 53 - 1

-- How SQLite answers a statement: it is done, or it throws and is undone by itself, or it throws and the
-- whole transaction is undone with it.
pub data Reply : Type 0 where
  fine statement_fails transaction_fails : Reply

pub record Replies : Type 0 where
  pub begin_fails : Bool
  pub insert_at : ℕ → Reply
  pub on_commit : Reply

-- The table as the connection sees it, and in a transaction the table before it.
pub record Connection : Type 0 where
  pub table : List Failure
  pub saved : Option (List Failure)

abbrev pub undone : Connection → Connection
undone c = elim c.saved [ none ↦ c | some before ↦ record { table = before; saved = none } ]

-- `try { dbh.exec('ROLLBACK') } catch {}`: outside a transaction it throws, which is caught.
unfoldable pub rollback : Connection → Connection
rollback c = undone c

pub data Ran : Type 0 where
  done : Connection → ℕ → Ran
  threw : Connection → Ran

-- The loop of inserts.
unfoldable pub insert_range : Replies → ℕ → String → Option (List ℕ) → List ℕ → Connection → ℕ → Ran
insert_range a now indexer reason [] c added = done c added
insert_range a now indexer reason (n ∷ ns) c added =
    let (table', new) = queue_one_if_absent now indexer n reason c.table in
    let rest =
      insert_range a now indexer reason ns (record c { table = table' })
        (if new then added + 1 else added) in
    elim (a.insert_at n) [
      | fine ↦ rest
      | statement_fails ↦ threw c
      | transaction_fails ↦ threw (undone c)
    ]

-- The rest of the `try` with its `catch`.
unfoldable pub commit_range : Replies → ℕ → Ran → Connection × RangeOutcome
unfolding rollback
commit_range a total (threw c) = (rollback c, err database_error)
commit_range a total (done c added) = elim a.on_commit [
  | fine ↦
      (record c { saved = none }, ok (record { added = added; already_queued = total - added }))
  | statement_fails ↦ (rollback c, err database_error)
  | transaction_fails ↦ (rollback (undone c), err database_error)
]

-- From BEGIN on, which throws in an open transaction, and outside the `try`.
unfoldable pub queue_heights :
    Replies → ℕ → String → Option (List ℕ) → List ℕ → ℕ → Connection → Connection × RangeOutcome
unfolding insert_range commit_range
queue_heights a now indexer reason heights total c = elim c.saved [
  | some _ ↦ (c, err database_error)
  | none ↦
      if a.begin_fails
      then (c, err database_error)
      else commit_range a total
          (insert_range a now indexer reason heights (record c { saved = some c.table }) 0)
]

-- The two ends, in order.
unfoldable pub queue_between :
    Replies → ℕ → String → Option (List ℕ) → ℤ → ℤ → Connection → Connection × RangeOutcome
unfolding queue_heights range_from
queue_between a now indexer reason (negsuc _) hi c = (c, err invalid_range)
queue_between a now indexer reason (pos lo) (negsuc _) c = (c, err invalid_range)
queue_between a now indexer reason (pos lo) (pos hi) c =
    if leb lo max_safe && leb hi max_safe && leb 1 lo
    then queue_heights a now indexer reason (range_from lo (hi + 1 - lo)) (hi + 1 - lo) c
    else (c, err invalid_range)

unfoldable pub queue_range_if_absent :
    Replies → ℕ → String → ℤ → ℤ → Option (List ℕ) → Connection → Connection × RangeOutcome
unfolding queue_between
queue_range_if_absent a now indexer from to reason c =
    if not (any (str_eq indexer) queueable_indexers)
    then (c, err unknown_indexer)
    else queue_between a now indexer reason (min_ℤ from to) (max_ℤ from to) c
