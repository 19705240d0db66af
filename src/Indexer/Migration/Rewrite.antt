-- ===== src/Indexer/Migration/Rewrite.antt =====
-- The rewrite of keys from block numbers to block hashes: `UPDATE OR IGNORE`, then a delete of what
-- still has an old key; the purge of rows from before event keys; and the repair of one height.
-- `digits` is what SQLite makes of an integer in a text.
use pdexplorer.Prelude.{
  ℕ, ◌*◌, Bool, true, false, not, ◌&&◌, ◌||◌, Option, none, some, List, [], ◌∷◌, ◌++◌, any, ltb,
  ◌==◌, length, filter_by, if◌then◌else◌,
}
use pdexplorer.Prelude.Text.{Text, codes, text_eq, starts_with}
use pdexplorer.Indexer.Migration.{
  Row, transactions, staking_rewards, Tables, like, zero_x, has_hash,
}

module _ (matches : Row → Bool) (new_key : Row → Text) where
  abbrev pub rekeyed : Row → Row
  rekeyed r = record r { key = new_key r }

  abbrev pub is_taken : Text → List Row → Bool
  is_taken k rs = any (λ (r : Row). text_eq r.key k) rs

  -- A row, between those that are done and those that come.
  abbrev pub updated : List Row → Row → List Row → Row
  updated done r rs =
      if matches r && not (is_taken (new_key r) done || is_taken (new_key r) rs)
      then rekeyed r
      else r

  -- `UPDATE OR IGNORE`, row by row.
  unfoldable pub update_or_ignore : List Row → List Row → List Row
  update_or_ignore [] done = done
  update_or_ignore (r ∷ rs) done = update_or_ignore rs (done ++ (updated done r rs ∷ []))

  unfoldable pub rekey : List Row → List Row
  rekey rs = filter_by (λ r. not (matches r)) (update_or_ignore rs [])

-- The keys of the migration.
module _ (digits : ℕ → Text) where
  -- `'event-' || block_hash || '-' || event_index`
  abbrev pub slot_key : Text → ℕ → Text
  slot_key h i = h ++ (codes "-" ++ digits i)

  abbrev pub slot_of : Text → Option Text → Option ℕ → Text
  slot_of prefix none index = []
  slot_of prefix (some h) none = []
  slot_of prefix (some h) (some i) = prefix ++ slot_key h i

  abbrev pub tx_key : Row → Text
  tx_key r = slot_of (codes "event-") r.block_hash r.event_index

  abbrev pub reward_key : Row → Text
  reward_key r = slot_of [] r.block_hash r.event_index

abbrev pub has_index : Option ℕ → Bool
has_index none = false
has_index (some i) = true

-- The rows of each table that have an old key, and a hash to make a new one of.
unfoldable pub is_legacy_tx : Row → Bool
is_legacy_tx r =
    r.event_derived
    && (has_hash r.block_hash
        && (has_index r.event_index
            && (like r.key (codes "event-") && not (like r.key (codes "event-0x")))))

unfoldable pub is_legacy_reward : Row → Bool
is_legacy_reward r = has_hash r.block_hash && (has_index r.event_index && not (like r.key zero_x))

module _ (digits : ℕ → Text) where
  unfoldable pub rewrite_transactions : List Row → List Row
  rewrite_transactions rs = rekey is_legacy_tx (tx_key digits) rs

  unfoldable pub rewrite_rewards : List Row → List Row
  rewrite_rewards rs = rekey is_legacy_reward (reward_key digits) rs

-- `countHashKeyedIdCandidates`: of transactions, and of rewards.
unfoldable pub count_candidates : Tables → ℕ × ℕ
count_candidates t = (
  length (filter_by is_legacy_tx (t transactions)),
  length (filter_by is_legacy_reward (t staking_rewards)),
)

-- A row with no key of an event.
abbrev pub is_extrinsic_keyed : Row → Bool
is_extrinsic_keyed r = not r.event_derived

pub record Purge : Type 0 where
  pub candidates : ℕ
  pub total : ℕ
  pub deleted : ℕ
  pub refused : Bool

abbrev pub is_zero : ℕ → Bool
is_zero n = n == 0

-- `purgeLegacyExtrinsicKeyedTx`, with the greatest fraction as a quotient: the table and the report.
unfoldable pub purge_legacy : ℕ → ℕ → List Row → List Row × Purge
purge_legacy num den rs =
    let total = length rs in
    let candidates = length (filter_by is_extrinsic_keyed rs) in
    let found : Purge = record {
      candidates = candidates;
      total = total;
      deleted = 0;
      refused = false;
    } in
    if is_zero candidates
    then (rs, found)
    else if ltb 0 total && ltb (total * num) (candidates * den)
    then (rs, record found { refused = true })
    else (filter_by (λ r. not (is_extrinsic_keyed r)) rs, record found { deleted = candidates })

-- `block_hash IS NULL OR block_hash = '' OR block_hash != ?`
abbrev pub is_other_hash : Text → Option Text → Bool
is_other_hash canonical none = true
is_other_hash canonical (some []) = true
is_other_hash canonical (some (c ∷ h)) = not (text_eq (c ∷ h) canonical)

-- `deleteForkRows` at a height that is a number; a hash that does not begin with 0x deletes nothing.
unfoldable pub delete_fork_rows : ℕ → Text → Tables → Tables
delete_fork_rows n canonical t k =
    if starts_with canonical zero_x
    then filter_by (λ (r : Row). not (r.block == n && is_other_hash canonical r.block_hash)) (t k)
    else t k
