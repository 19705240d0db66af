-- ===== src/Staking.antt =====
-- What a nominator is shown of the validators.
pub mod Commission
pub mod Filters
