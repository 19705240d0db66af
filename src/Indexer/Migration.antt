-- ===== src/Indexer/Migration.antt =====
-- The identifier migration: lib/id-migration.js. A table is the list of its rows; the tables that it
-- writes have the same columns here, of which each uses its own. `digits` is what SQLite makes of an
-- integer in a text.
pub mod Purged
pub mod Bounds
pub mod Forks
pub mod Handover
pub mod Rewrite
pub mod Rekey
pub mod Account
use pdexplorer.Prelude.{
  ℕ, zero, suc, ◌+◌, ◌-◌, ◌*◌, min, max, Bool, true, false, not, ◌&&◌, ◌||◌, Option, none, some,
  List, [], ◌∷◌, ◌++◌, ltb, leb, ◌==◌, length, take, filter_by, any, if◌then◌else◌, if◌then◌else◌,
}
use pdexplorer.Prelude.Text.{Text, codes, text_eq, to_lower_case, starts_with}

pub data Table : Type 0 where
  events transactions staking_rewards : Table

-- `key` is the primary key: `hash`, or `id` of a reward.
pub record Row : Type 0 where
  pub key : Text
  pub block : ℕ
  pub block_hash : Option Text
  pub event_index : Option ℕ
  pub event_derived : Bool

-- A row of the table `blocks`.
pub record Block : Type 0 where
  pub number : ℕ
  pub hash : Option Text

abbrev pub Tables : Type 0
Tables = Table → List Row

-- `LIKE 'prefix%'`, which does not tell the cases of ASCII letters apart.
unfoldable pub like : Text → Text → Bool
unfolding to_lower_case
like s prefix = starts_with (to_lower_case s) prefix

abbrev pub zero_x : Text
zero_x = codes "0x"

abbrev pub has_hash : Option Text → Bool
has_hash none = false
has_hash (some h) = like h zero_x

-- `b.hash LIKE '0x%' AND b.hash != row.block_hash`
abbrev pub disagrees : Option Text → Option Text → Bool
disagrees none own = false
disagrees (some h) none = false
disagrees (some h) (some own) = like h zero_x && not (text_eq h own)

-- `forkWhere`
unfoldable pub is_fork : List Block → Row → Bool
is_fork blocks r =
    has_hash r.block_hash
    && any (λ (b : Block). b.number == r.block && disagrees b.hash r.block_hash) blocks

abbrev pub is_in_range : ℕ → ℕ → Row → Bool
is_in_range from to r = leb from r.block && leb r.block to

-- The heights of the rows, each once.
unfoldable pub heights : List Row → List ℕ → List ℕ
heights [] seen = seen
heights (r ∷ rs) seen = heights rs (if any (r.block ==◌) seen then seen else seen ++ (r.block ∷ []))

unfoldable pub touched_limit : ℕ
touched_limit = 5000

-- What the migration works on: the tables, the stored cursor, and the heights that were handed to
-- `onForkDelete`.
pub record Migration : Type 0 where
  pub tables : Tables
  pub cursor : Option ℕ
  pub handed : List ℕ

abbrev pub end_of : ℕ → ℕ → ℕ → ℕ
end_of chunk_blocks hi cursor = min (cursor + chunk_blocks - 1) hi

-- MIN and MAX over the three tables; `Number(null)` is 0.
abbrev pub highest : List Row → ℕ
highest [] = 0
highest (r ∷ rs) = max r.block (highest rs)

abbrev pub lowest : List Row → Option ℕ
lowest [] = none
lowest (r ∷ rs) = elim (lowest rs) [ none ↦ some r.block | some n ↦ some (min r.block n) ]

abbrev pub min_of : Option ℕ → Option ℕ → Option ℕ
min_of none b = b
min_of (some a) none = some a
min_of (some a) (some b) = some (min a b)

abbrev pub or_0 : Option ℕ → ℕ
or_0 none = 0
or_0 (some n) = n

unfoldable pub top : Tables → ℕ
top t = max (highest (t events)) (max (highest (t transactions)) (highest (t staking_rewards)))

unfoldable pub bottom : Tables → ℕ
bottom t =
    or_0
      (min_of (lowest (t events)) (min_of (lowest (t transactions)) (lowest (t staking_rewards))))

-- Where a run starts: at the stored cursor, where that is higher.
abbrev pub resume_from : Option ℕ → ℕ → ℕ
resume_from none lo = lo
resume_from (some saved) lo = if ltb lo saved then saved else lo

unfoldable pub resume_at : Migration → ℕ
resume_at m = resume_from m.cursor (bottom m.tables)

-- How a run that does not end may stop in its last chunk: with nothing of it done, after its commit,
-- or after the heights were handed over and before the cursor was stored.
pub data Stop : Type 0 where
  rolled_back committed handed_over : Stop

module _ (blocks : List Block) where
  abbrev pub fork_rows : ℕ → ℕ → List Row → List Row
  fork_rows from to rs = filter_by (λ r. is_fork blocks r && is_in_range from to r) rs

  unfoldable pub delete_range : ℕ → ℕ → Tables → Tables
  delete_range from to t k = filter_by (λ r. not (is_fork blocks r && is_in_range from to r)) (t k)

-- A run with `onForkDelete`. `reads from` says that the SELECT of the chunk at `from` does not throw.
module _ (blocks : List Block) (reads : ℕ → Bool) where
  -- `SELECT DISTINCT block … UNION … LIMIT 5000`, of which a cut may leave any heights, or nothing where
  -- it throws.
  unfoldable pub touched : ℕ → ℕ → Tables → List ℕ
  touched from to t =
      if reads from
      then take touched_limit (
          heights (fork_rows blocks from to (t staking_rewards)) (
            heights (fork_rows blocks from to (t transactions))
              (heights (fork_rows blocks from to (t events)) [])))
      else []

  -- One chunk: the heights are read before the delete, and handed over after it, then the cursor is
  -- stored.
  unfoldable pub chunk_step : ℕ → ℕ → Migration → Migration
  chunk_step from to m = record {
    tables = delete_range blocks from to m.tables;
    cursor = some (to + 1);
    handed = m.handed ++ touched from to m.tables;
  }

  -- The loop, for some rounds at most: the cursor and the state it leaves.
  unfoldable pub chunks : ℕ → ℕ → ℕ → ℕ → Migration → ℕ × Migration
  chunks zero chunk_blocks hi cursor m = (cursor, m)
  chunks (suc rounds) chunk_blocks hi cursor m =
      let to = end_of chunk_blocks hi cursor in
      let rest = chunks rounds chunk_blocks hi (to + 1) (chunk_step cursor to m) in
      if leb cursor hi then rest else (cursor, m)

  -- The whole step. A loop from any cursor up to the top has at most top + 1 rounds.
  unfoldable pub delete_forks : ℕ → Migration → Migration
  delete_forks chunk_blocks m =
      (chunks (suc (top m.tables)) chunk_blocks (top m.tables) (resume_at m) m).1

  abbrev pub stopped : Stop → ℕ → ℕ → Migration → Migration
  stopped rolled_back from to m = m
  stopped committed from to m = record m { tables = delete_range blocks from to m.tables }
  stopped handed_over from to m = record (chunk_step from to m) { cursor = m.cursor }

  -- A run that is cut off after some whole chunks.
  unfoldable pub cut_off : ℕ → ℕ → Stop → Migration → Migration
  cut_off chunk_blocks rounds stop m =
      let hi = top m.tables in
      let (cursor, m') = chunks rounds chunk_blocks hi (resume_at m) m in
      if leb cursor hi then stopped stop cursor (end_of chunk_blocks hi cursor) m' else m'

-- Runs that are cut off, each with its own reads.
unfoldable pub cut_runs : List Block → ℕ → List ((ℕ → Bool) × ℕ × Stop) → Migration → Migration
cut_runs blocks chunk_blocks [] m = m
cut_runs blocks chunk_blocks ((reads, rounds, stop) ∷ runs) m =
    cut_runs blocks chunk_blocks runs (cut_off blocks reads chunk_blocks rounds stop m)
