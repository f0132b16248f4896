-- ===== src/Types/Events.antt =====
-- `enum Event` of src/lib.rs, with the fields in the order of the source.
use tellor_pallet.Base.{ℕ, Bool, Option}
use tellor_pallet.Types.Records.{Bytes, Feed, VoteResult, Weights}

pub data Event : Type 0 where
  -- query_id feed_id amount feed_funder feed_details
  data_feed_funded : ℕ → ℕ → ℕ → ℕ → Feed → Event
  -- query_id feed_id query_data feed_creator
  new_data_feed : ℕ → ℕ → Bytes → ℕ → Event
  -- query_id amount reporter
  onetime_tip_claimed : ℕ → ℕ → ℕ → Event
  -- query_id amount query_data tipper
  tip_added : ℕ → ℕ → Bytes → ℕ → Event
  -- feed_id query_id amount reporter
  tip_claimed : ℕ → ℕ → ℕ → ℕ → Event
  -- query_id time value nonce query_data reporter
  new_report : ℕ → ℕ → Bytes → ℕ → Bytes → ℕ → Event
  new_stake_amount : ℕ → Event
  -- staker amount address
  new_staker_reported : ℕ → ℕ → ℕ → Event
  -- reporter amount
  slash_reported : ℕ → ℕ → Event
  stake_withdrawn_reported : ℕ → Event
  -- reporter amount address
  stake_withdraw_request_reported : ℕ → ℕ → ℕ → Event
  -- source amount
  staking_rewards_added : ℕ → ℕ → Event
  -- query_id timestamp
  value_removed : ℕ → ℕ → Event
  -- dispute_id query_id timestamp reporter
  new_dispute : ℕ → ℕ → ℕ → ℕ → Event
  -- para_id contract_address
  new_dispute_sent : ℕ → ℕ → Event
  new_dispute_fee : ℕ → Event
  -- dispute_id supports voter
  voted : ℕ → Option Bool → ℕ → Event
  -- para_id contract_address dispute_id vote_round
  vote_sent : ℕ → ℕ → ℕ → ℕ → Event
  -- dispute_id result initiator reporter
  vote_tallied : ℕ → VoteResult → ℕ → ℕ → Event
  -- dispute_id result
  vote_executed : ℕ → VoteResult → Event
  query_data_stored : ℕ → Event
  -- para_id contract_address weights
  registration_sent : ℕ → ℕ → Weights → Event
