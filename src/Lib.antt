-- ===== src/Lib.antt =====
-- A verification library for the Polkadex explorer: the parts of the server and of the browser
-- client that decide what is indexed, what is owed, and what a visitor is told.
--
-- The indexer
-- -----------
-- A scanner walks the chain in ticks. A height that it fails to read gets a row in the table
-- `scan_failures` (db.js, lib/scan-queue.js); a span that it skips is recorded there up to a cap and
-- the rest goes to a ledger of ranges (lib/skip-tail.js), from where each tick queues a bounded
-- number of heights (`recordSkippedRange` and `drainSkipTail` of server.js). The lowest row of the
-- queue bounds the watermark (lib/watermark.js), and the counts of its rows make the status
-- (lib/index-status.js). Holes of the block table are repaired in rotation (lib/gap-scheduling.js),
-- and heights below the finalized head are compared with the chain again (lib/reorg.js and
-- `reorgSweep` of server.js).
--
-- - Indexer/SkipTail: lib/skip-tail.js. A range as storage holds it is a `RawRange` with two
--   JavaScript values; `read_ranges` is the `filter(valid).map(norm)` of the source. The loop that
--   bounds the ledger runs on fuel, as many rounds as there are ranges, and each round removes one.
-- - Indexer/ScanQueue: the table as a list of rows with the statements that the program prepares;
--   `upsert` and `update_where` are INSERT … ON CONFLICT and UPDATE … WHERE. A range is queued in a
--   transaction on a `Connection`, with any `Replies` of SQLite.
-- - Indexer/Skipped: the two functions of server.js on the pair of the table and the ledgers.
-- - Indexer/Watermark: lib/watermark.js, with its arguments as JavaScript values.
-- - Indexer/Reorg: lib/reorg.js and the sweep. `SweepState` is the stored mark, with the heights
--   checked so far. What the node says in a tick is a `Tick`; `completes` is false at a height whose
--   check throws.
-- - Indexer/Gaps: lib/gap-scheduling.js. The map of attempts is a function.
-- - Indexer/BlockGaps: getBlockGaps and getEdgeGaps of db.js, and `scanGapsYielding` of server.js, which
--   calls the first for one slice of heights after the other. Its loop runs on as many rounds as there
--   are heights up to the upper bound. Snap and Window say what a window lists, Falling and Reach what a
--   slice adds, Edges and Missing which heights are repaired.
-- - Indexer/Status: lib/index-status.js, and what the chain tick gives to it.
-- - Indexer/Migration: lib/id-migration.js. The delete of fork rows by chunks runs on rounds: one more than
--   the highest block is enough, since each chunk moves the cursor. `cut_off` is a run that stops in a
--   chunk, `cut_runs` a row of such runs. Rewrite has the new keys, the purge and the repair of a height,
--   Account what becomes of each event.
--
-- The feeds, rewards, guards and governance
-- -----------------------------------------
-- The pages of transfers and the merge of a poll stand between the server and the lists that a
-- visitor sees; the limiter stands before the server's routes; the locator gives the governance
-- indexer the heights of motions that its crawler missed, which go to the retry queue.
--
-- - Feeds/TxPage: `planTxPage` of lib/tx-paging.js, with its two loops; Rounds and Complete have the
--   lemmas on one round and on the loop, Pages follows the pages to the end.
-- - Feeds/MergeRows: `mergeRows` of lib/merge-rows.js, over the functions that its caller gives. Cap
--   has what a cap cuts off.
-- - Rewards/Dedup: lib/reward-dedup.js. The key of a claimed row is the pair of its era and its
--   validator; a set is a list.
-- - Rewards/Unclaimed: `stashEraPayouts` and `mergeUnclaimed` of lib/unclaimed-rewards.js.
-- - Rewards/Attribution: lib/reward-attribution.js.
-- - Guards/RateLimit: lib/rate-limit.js, with times in whole milliseconds.
-- - Guards/SqliteRetry: lib/sqlite-errors.js. What is tried is a function from the number of the attempt
--   to its result; the loop is a recursion on the attempts that are left.
-- - Governance/Locator: the block locator of lib/collective-motions.js. Each search has 64 probes, as
--   in the source, which is enough below the height 2^64. Nearest is about its hints.
-- - Governance/Motions: `attributeMotionEvents` of lib/collective-motions.js. Owner has the motion that
--   an event is about, Outcome what the events make of a motion.
--
-- The discussions
-- ---------------
-- Every governance item has a thread (table `discussion_threads` of db.js), which lib/discussion-threads.js
-- opens, closes and reopens by what a tick has read of the chain, where that read is current.
--
-- - Discussions/Table: the table and its statements. Standings and Notes say what each does to a thread.
-- - Discussions/Trust: when a read may close a thread.
-- - Discussions/Reconcile: reconcileThreads and reconcileReferendumThreads, with `reconcileGovThreads` of
--   server.js. A thread's standing is its status with the reason of its close.
-- - Discussions/Tick: the calls of a democracy tick (`syncData` of server.js), with the marks of the kinds.
--
-- The wallet
-- ----------
-- Before a transaction is signed, its fee is checked against the account (lib/fee-preflight.js), by the
-- figures that the balance panel shows (lib/balance-locks.js). From the signature to finality the
-- submission is a state machine (`txStep` of lib/tx-status.js). Which account is connected, and whose
-- discussion session is on the device, is the state of lib/wallet-session.js.
--
-- - Wallet/Fees: lib/fee-preflight.js, accountBalances and balanceBreakdown. The rules of the chain for
--   a withdrawal and for the reducible balance stand in Payable, apart from the code.
-- - Wallet/LockPlan: `democracyLockPlan` of lib/balance-locks.js.
-- - Wallet/LockActions: lib/lock-actions.js. Pallet has the rules of pallet-democracy that the source names,
--   with its calls; Offer has the buttons and what they sign.
-- - Wallet/Session: `createWalletSession`, pickSigningAccount and orderSources of lib/wallet-session.js.
--   `Storage` and `Addresses` are the records of operations that the source is given; `Reliable` and
--   `Lawful` say what they keep to. Owner and OptOut have the moves of a page as relations.
-- - Wallet/TxStep: `txStep`. An event of the tracker is a `TxEvent`, its answer a `Step`.
-- - Wallet/LiveRuntime: lib/live-runtime.js. The variables of `followRuntimeVersion` are a record, and what
--   happens to its subscription is a list of events.
-- - Wallet/Outcome: `evaluateEvents`, with the key of `decodeDispatchError`. `kind_of` is the chain of
--   tests of its loop.
--
-- What a nominator is shown
-- -------------------------
-- - Staking/Filters: lib/stake-filters.js. `Raw` is a value as JSON gives it; Pass has the predicates and
--   the counts, Order the sort. Percentages and amounts are whole numbers of 10^-9.
-- - Staking/Commission: lib/commission-history.js, with commissions in parts of a Perbill.
--
-- Conventions
-- -----------
-- Prelude has the shared helpers. JavaScript's numbers are natural numbers or integers here; where a
-- value may be anything, it is a `JsValue` (Prelude/Js), with `Number(v)` as `number`. Fractions are
-- not modelled. A text is the list of its UTF-16 code units (Prelude/Text), save for the names of
-- indexers, which are strings. SQLite, the node and the clock are arguments.
--
-- Not modelled: the HTTP and cluster layer of server.js, the pages of script.js and of the view
-- modules, e-mail, the tools, and the deployment scripts. They are input and output around the parts
-- above.
pub mod Prelude
pub mod Indexer
pub mod Feeds
pub mod Rewards
pub mod Staking
pub mod Guards
pub mod Discussions
pub mod Governance
pub mod Wallet
pub mod Tests
