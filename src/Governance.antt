-- ===== src/Governance.antt =====
-- Governance: the motions of the collectives.
pub mod Locator
pub mod Motions
