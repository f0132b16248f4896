-- ===== src/Governance.antt =====
-- The governance part of src/impls.rs and src/lib.rs: disputes and votes.
pub mod Fees
pub mod Dispute
pub mod Vote
pub mod Send
pub mod Outcome
pub mod Rounds
