-- ===== src/Wallet.antt =====
-- The figures of the wallet: fees, balances and locks, and who is connected.
pub mod Fees
pub mod LockPlan
pub mod Session
pub mod TxStep
pub mod LiveRuntime
pub mod Outcome
pub mod LockActions
