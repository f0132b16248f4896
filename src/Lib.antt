-- ===== src/Lib.antt =====
-- The Tellor pallet, a FRAME pallet that is an oracle. Reporters stake tokens on a controller
-- chain, whose contracts report the stakes over XCM; they submit values for query identifiers and
-- earn tips, feed rewards and staking rewards; anyone may dispute a value, and a vote decides.
--
-- A dispatchable is a function from its origin, its arguments and the state `Pallet W` to a
-- `Result`, as `src/lib.rs` has it: an error leaves no state, since FRAME rolls a failed
-- dispatchable back. `W` is the state outside the pallet (balances, XCM queues). Code outside the
-- repository is a field of `Config W`: the asset, the hash, the ABI and SCALE encodings, the
-- weigher and the router of XCM. Three properties assume documented behaviour of it: that transfers
-- move what they say, and that the SCALE encoding of a network can be read back.
--
-- The parts, with the files of the repository that they model:
--   Base      tests, lists, storage maps and machine arithmetic over the native numbers
--   Types     src/types.rs; the errors, events and origins of src/lib.rs
--   State     the storage of src/lib.rs; Constants src/constants.rs; Config the pallet's `Config`
--   Contracts src/contracts/: the calls of the controller contracts
--   Xcm       src/xcm/: the messages that carry them, and the origins of what arrives (Origins)
--   Oracle    `submit_value` (Submit), `remove_value` (Remove), the search before a time (Before)
--             and after a time (After), the reads of one series (Series)
--   Staking   amounts (Amounts), `update_rewards` (Rewards), `update_stake_and_pay_rewards`
--             (Stakes), the reports of the staking contract (Reports)
--   Governance `begin_dispute` (Dispute, with what it does to the oracle), votes (Vote), sending
--             them (Send), tally and execution (Outcome), the rounds that votes carry (Rounds),
--             the stake amount and the dispute fee (Fees)
--   Autopay   feeds (Feeds), rewards (Rewards, ClaimTip), one-time tips (Tips, Onetime)
--   Hooks     `on_initialize` and `register`
--   UsingTellor the trait of src/traits.rs through which other pallets read the oracle, its laws,
--             the pallet's implementation of it (Pallet), and the sample pallet of
--             using-tellor/src/lib.rs as its client (Sample)
--   Getters   the reads of single storage items in src/impls.rs
--   Tests     a runtime, and runs of the pallet in it
-- Submissions and disputes share the oracle's series: `begin_dispute` calls `remove_value`. Stakes
-- change through `update_stake_and_pay_rewards` alone. Fees, tips and rewards go through `transfer`.
--
-- Numbers are natural. Additions that the source checks return none beyond the greatest value of
-- their type, saturating ones stop there, plain ones wrap or panic as written. A map that only is
-- read by key is a function; the stakers, the pending votes and the funded identifiers are
-- association lists. The binary searches of Before and After run on fuel: 33, enough for 32-bit
-- bounds, as each round halves their distance; those over tips on 34, with a last round for the
-- test; the loop over the values of a period on two more than its last index; the rounds of
-- `remove_value` and of a vote are counted, as in the source.
--
-- Not modelled: weights (src/weights.rs), the runtime API (runtime-api/), which declares remote
-- reads, benchmarks and tests, the getters that iterate over the prefix of a double map, and the
-- fee location of src/xcm/mod.rs, which rests on the XCM library.
pub mod Base
pub mod Types
pub mod Contracts
pub mod Config
pub mod State
pub mod Constants
pub mod Oracle
pub mod Staking
pub mod Xcm
pub mod Governance
pub mod Autopay
pub mod Hooks
pub mod UsingTellor
pub mod Getters
pub mod Tests
