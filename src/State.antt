-- ===== src/State.antt =====
-- The storage of the pallet (src/lib.rs), by component, the clock and the block number, the events
-- (the newest first), and the state outside the pallet.
use tellor_pallet.Base.{ℕ, Bool, Option, List, ◌∷◌, Assoc}
use tellor_pallet.Types.{Bytes, Feed, Tip, Report, StakeInfo, Dispute, Vote, Event}

pub record AutoPay : Type 0 where
  -- by query_id and feed_id
  pub data_feeds : ℕ → ℕ → Option Feed
  -- by query_id, feed_id and timestamp
  pub data_feed_reward_claimed : ℕ → ℕ → ℕ → Bool
  pub feeds_with_funding : Assoc (Unit {0})
  pub query_id_from_data_feed_id : ℕ → Option ℕ
  pub query_ids_with_funding : Assoc (Unit {0})
  -- by query_id and index
  pub tips : ℕ → ℕ → Option Tip
  pub tip_count : ℕ → ℕ
  pub user_tips_total : ℕ → ℕ

pub record Oracle : Type 0 where
  pub last_reported_timestamp : ℕ → Option ℕ
  pub last_stake_amount_update : ℕ
  -- by query_id and timestamp
  pub reports : ℕ → ℕ → Option Report
  -- by query_id and index
  pub reported_timestamps_by_index : ℕ → ℕ → Option ℕ
  pub reported_timestamp_count : ℕ → ℕ
  -- by query_id and timestamp
  pub reported_values_by_timestamp : ℕ → ℕ → Option Bytes
  -- by reporter and query_id
  pub staker_reports_submitted_by_query_id : ℕ → ℕ → ℕ
  pub time_of_last_new_value : Option ℕ

pub record Staking : Type 0 where
  pub accumulated_reward_per_share : ℕ
  pub reward_rate : ℕ
  pub stake_amount : ℕ
  pub staker_details : Assoc StakeInfo
  pub time_of_last_allocation : ℕ
  pub total_reward_debt : ℕ
  pub total_stake_amount : ℕ
  pub total_stakers : ℕ
  pub to_withdraw : ℕ

pub record Governance : Type 0 where
  pub dispute_fee : ℕ
  -- by reporter and dispute_id
  pub dispute_ids_by_reporter : ℕ → ℕ → Bool
  pub dispute_info : ℕ → Option Dispute
  pub open_disputes_on_id : ℕ → Option ℕ
  -- by dispute_id: the vote round and the time from which it is due
  pub pending_votes : Assoc (ℕ × ℕ)
  pub vote_count : ℕ
  -- by dispute_id and vote round
  pub vote_info : ℕ → ℕ → Option Vote
  pub vote_rounds : ℕ → ℕ
  -- by dispute_id, vote round and voter
  pub votes : ℕ → ℕ → ℕ → Bool
  pub vote_tally_by_address : ℕ → ℕ

pub record Pallet (W : Type 0) : Type 0 where
  pub autopay : AutoPay
  pub oracle : Oracle
  pub staking : Staking
  pub governance : Governance
  pub query_data : ℕ → Option Bytes
  pub world : W
  pub now : ℕ
  pub block_number : ℕ
  pub events : List Event

module _ {W : Type 0} where
  -- `deposit_event`.
  abbrev pub deposit_event : Event → Pallet W → Pallet W
  deposit_event e s = record s { events = e ∷ s.events }
