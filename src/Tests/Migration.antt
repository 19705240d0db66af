-- ===== src/Tests/Migration.antt =====
-- Runs of the identifier migration, and its theorems at concrete tables.
use pdexplorer.Prelude.{
  Bool, false, ◌+◌, In, ℕ, ◌≡◌, refl, arith, true, ◌||◌, none, some, List, [], ◌∷◌, inl, inr, map,
}
use pdexplorer.Prelude.Text.{Text, codes}
use pdexplorer.Indexer.Migration.{
  Row, Block, events, transactions, staking_rewards, Tables, Migration, is_fork, like, heights,
  touched, touched_limit, delete_range, chunk_step, chunks, top, bottom, resume_at, delete_forks,
  committed, cut_off, cut_runs,
}
use pdexplorer.Indexer.Migration.Purged.{kept}
use pdexplorer.Indexer.Migration.Forks.{IsSound, resumed_exact}
use pdexplorer.Indexer.Migration.Handover.{has, has_fork_at, handed_exact}
use pdexplorer.Indexer.Migration.Rewrite.{
  tx_key, reward_key, is_legacy_tx, is_legacy_reward, rewrite_transactions, rewrite_rewards, rekey,
  update_or_ignore,
}
use pdexplorer.Indexer.Migration.Account.{Decimal, OwnKeys, Accounted, Origin, rewrites_account}

abbrev row : ℕ → Text → Row
row block hash = record {
  key = codes "event-7-0";
  block = block;
  block_hash = some hash;
  event_index = some 0;
  event_derived = true;
}

-- At height 7 the chain has another hash than one event and one transaction.
abbrev tables : Tables
tables k = elim k [
  | events ↦ row 3 (codes "0xaa") ∷ row 7 (codes "0xdead") ∷ []
  | transactions ↦ row 7 (codes "0xdead") ∷ row 7 (codes "0xbb") ∷ []
  | staking_rewards ↦ []
]

abbrev blocks : List Block
blocks =
    record { number = 3; hash = some (codes "0xaa") }
    ∷ record { number = 7; hash = some (codes "0xbb") }
    ∷ []

abbrev start : Migration
start = record { tables = tables; cursor = none; handed = [] }

abbrev always : ℕ → Bool
always _ = true

abbrev never : ℕ → Bool
never _ = false

-- Where no chunk's heights can be read, the rows go and nothing is handed over.
unread : (delete_forks blocks never 3 start).handed ≡ []
unfolding delete_forks chunks chunk_step delete_range touched touched_limit heights is_fork like top
    bottom resume_at
unread = refl

-- A run that is cut off after the commit of its second chunk leaves nothing to hand over.
abbrev lost : Migration
lost = delete_forks blocks always 3 (cut_off blocks always 3 1 committed start)

lost_height : (lost.handed ≡ []) × (lost.tables transactions ≡ row 7 (codes "0xbb") ∷ [])
unfolding delete_forks cut_off chunks chunk_step delete_range touched touched_limit heights is_fork
    like top bottom resume_at
lost_height = (refl, refl)

start-IsSound : IsSound blocks start
unfolding is_fork like
start-IsSound events = refl
start-IsSound transactions = refl
start-IsSound staking_rewards = refl

resumed_exact_example :
    (delete_forks blocks never 3 (cut_runs blocks 3 ((always, 1, committed) ∷ []) start)).tables
      events
    ≡ kept (is_fork blocks) (tables events)
resumed_exact_example =
    resumed_exact blocks never 3 ((always, 1, committed) ∷ []) start events (omega arith)
      start-IsSound

handed_exact_example :
    has 7 (delete_forks blocks always 3 start).handed ≡ (has 7 [] || has_fork_at blocks 7 tables)
unfolding is_fork like touched_limit
handed_exact_example =
    handed_exact blocks always 3 7 start (λ n. refl) (omega arith) start-IsSound (omega arith)

-- One code unit for each number.
abbrev digits : ℕ → Text
digits n = (48 + n) ∷ []

digits-Decimal : Decimal digits
digits-Decimal = record { one_text = λ a b e. ground (arith, e); no_dash = λ a. ground arith }

-- Two old keys in one block, one of which has its new row already.
abbrev old_rows : List Row
old_rows =
    row 7 (codes "0xbb")
    ∷ record (row 7 (codes "0xbb")) { key = codes "event-7-1"; event_index = some 1 }
    ∷ record (row 7 (codes "0xbb")) { key = codes "event-0xbb-1"; event_index = some 1 }
    ∷ []

rewritten :
    map (λ (r : Row). r.key) (rewrite_transactions digits old_rows)
    ≡ codes "event-0xbb-0" ∷ codes "event-0xbb-1" ∷ []
unfolding rewrite_transactions rekey update_or_ignore is_legacy_tx like
rewritten = refl

old_rows-OwnKeys : OwnKeys (codes "event-0x") (tx_key digits) old_rows
unfolding like
old_rows-OwnKeys q (inl e) h = absurd (ground (arith, rw e at h))
old_rows-OwnKeys q (inr (inl e)) h = absurd (ground (arith, rw e at h))
old_rows-OwnKeys q (inr (inr (inl e))) h = rw e refl
old_rows-OwnKeys q (inr (inr (inr n))) h = elim n [ ]

rewrites_account_example :
    ((r : Row)
      → In r old_rows
      → Accounted is_legacy_tx (tx_key digits) old_rows (rewrite_transactions digits old_rows) r)
    × ((r : Row)
        → In r []
        → Accounted is_legacy_reward (reward_key digits) [] (rewrite_rewards digits []) r)
    × ((x : Row)
        → In x (rewrite_transactions digits old_rows)
        → Origin is_legacy_tx (tx_key digits) old_rows x)
    × ((x : Row)
        → In x (rewrite_rewards digits [])
        → Origin is_legacy_reward (reward_key digits) [] x)
rewrites_account_example =
    rewrites_account digits old_rows [] digits-Decimal old_rows-OwnKeys (λ q n h. elim n [ ])
