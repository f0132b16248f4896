-- ===== src/Types/Records.antt =====
-- The structs of src/types.rs. Balances, timestamps, accounts, addresses and hashes are numbers,
-- values and query data lists of bytes.
use tellor_pallet.Base.{ℕ, Bool, false, Option, List}

abbrev pub Bytes : Type 0
Bytes = List ℕ

pub record Feed : Type 0 where
  pub reward : ℕ
  pub balance : ℕ
  pub start_time : ℕ
  pub interval : ℕ
  pub window : ℕ
  pub price_threshold : ℕ
  pub reward_increase_per_second : ℕ

pub record Tip : Type 0 where
  pub amount : ℕ
  pub timestamp : ℕ
  pub cumulative_tips : ℕ

pub record Report : Type 0 where
  pub index : ℕ
  pub block_number : ℕ
  pub reporter : ℕ
  pub is_disputed : Bool
  pub previous : Option ℕ

pub record StakeInfo : Type 0 where
  pub address : ℕ
  pub start_date : ℕ
  pub staked_balance : ℕ
  pub locked_balance : ℕ
  pub reward_debt : ℕ
  pub reporter_last_timestamp : ℕ
  pub reports_submitted : ℕ
  pub start_vote_count : ℕ
  pub start_vote_tally : ℕ
  pub staked : Bool

-- `StakeInfo::new`: all else is the default.
abbrev pub new_stake_info : ℕ → StakeInfo
new_stake_info address = record {
  address = address;
  start_date = 0;
  staked_balance = 0;
  locked_balance = 0;
  reward_debt = 0;
  reporter_last_timestamp = 0;
  reports_submitted = 0;
  start_vote_count = 0;
  start_vote_tally = 0;
  staked = false;
}

pub record Dispute : Type 0 where
  pub query_id : ℕ
  pub timestamp : ℕ
  pub value : Bytes
  pub disputed_reporter : ℕ
  pub slashed_amount : ℕ

pub record Tally : Type 0 where
  pub does_support : ℕ
  pub against : ℕ
  pub invalid_query : ℕ

abbrev pub empty_tally : Tally
empty_tally = record { does_support = 0; against = 0; invalid_query = 0 }

pub data VoteResult : Type 0 where
  failed passed invalid : VoteResult

pub record Vote : Type 0 where
  pub identifier : ℕ
  pub vote_round : ℕ
  pub start_date : ℕ
  pub block_number : ℕ
  pub fee : ℕ
  pub tally_date : ℕ
  pub users : Tally
  pub reporters : Tally
  pub sent : Bool
  pub executed : Bool
  pub result : Option VoteResult
  pub initiator : ℕ

pub record Weights : Type 0 where
  pub report_stake_deposited : ℕ
  pub report_staking_withdraw_request : ℕ
  pub report_stake_withdrawn : ℕ
  pub report_vote_tallied : ℕ
  pub report_vote_executed : ℕ
  pub report_slash : ℕ
