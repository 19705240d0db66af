-- ===== src/Rewards.antt =====
-- Staking rewards: what was claimed and what is still owed.
pub mod Dedup
pub mod Unclaimed
pub mod Attribution
