-- ===== src/Staking.antt =====
-- The staking part of src/impls.rs and src/lib.rs: rewards, and the reports of the staking
-- controller contract.
pub mod Amounts
pub mod Rewards
pub mod Stakes
pub mod Reports
pub mod Totals
pub mod Solvency
pub mod Counted
pub mod History
