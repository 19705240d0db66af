-- ===== src/Tests.antt =====
-- Runs of the models on concrete inputs.
mod Feeds
mod Guards
mod Discussions
mod Locks
mod Migration
mod Skips
mod Payouts
mod Queue
mod Blocks
mod Heights
mod Wallet
mod Session
mod Staking
mod Motions
mod Outcome
