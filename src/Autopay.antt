-- ===== src/Autopay.antt =====
-- The autopay part of src/impls.rs and src/lib.rs: data feeds and one-time tips.
pub mod Feeds
pub mod Rewards
pub mod ClaimTip
pub mod Tips
pub mod Onetime
