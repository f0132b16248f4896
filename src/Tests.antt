-- ===== src/Tests.antt =====
-- A runtime to run the pallet in: the configuration, and a chain of states that the tests share.
pub mod Reads
pub mod Readers
pub mod Stakes
pub mod Votes
pub mod Claims
pub mod Payments
pub mod Blocks
pub mod Ledger
pub mod Rewards
pub mod Encodings
pub mod Disputes
pub mod Rounds
use tellor_pallet.Base.{
  ℕ, ◌+◌, ◌*◌, ◌^◌, ◌≡◌, ◌<◌, refl, Bool, true, false, Option, none, some, List, [], ◌∷◌, arith,
  set, set₂,
}
use tellor_pallet.Base.Machine.{u128_max, u32_max}
use tellor_pallet.Types.{
  Bytes, Result, ok, err, is_ok, ok_value, Origin, ensure_governance, ensure_staking, Weights,
  Dispute,
}
use tellor_pallet.Contracts.{Tokens}
use tellor_pallet.Contracts.Registry.{NetworkId}
use tellor_pallet.Config.{Config, ContractLocation, Weight, sent}
use tellor_pallet.State.{AutoPay, Oracle, Staking, Governance, Pallet}

abbrev pub first : Bytes → ℕ
first [] = 0
first (b ∷ bs) = b

abbrev pub contract : ContractLocation
contract = record { para_id = 2_000; address = 3; network = none }

-- The assets are never short, and a hash is the first byte.
abbrev pub runtime : Config ℕ
runtime = record {
  balance_max = u128_max;
  decimals = 18;
  ethereum_xcm_pallet_index = 38;
  fee = 10;
  governance = contract;
  initial_dispute_fee = 100;
  max_claim_timestamps = 10;
  max_disputed_time_series = 10;
  minimum_stake_amount = 100 * 10 ^ 18;
  parachain_id = 3_000;
  registry = contract;
  stake_amount_currency_target = 500 * 10 ^ 18;
  staking_token_price_query_id = 5;
  staking_to_local_token_price_query_id = 6;
  update_stake_amount_interval = 0;
  weight_to_fee = 1;
  xcm_weight_to_asset = 1;
  pallet_index = 40;
  weights = record {
    report_stake_deposited = 1;
    report_staking_withdraw_request = 1;
    report_stake_withdrawn = 1;
    report_vote_tallied = 1;
    report_vote_executed = 1;
    report_slash = 1;
  };
  account = 90;
  dispute_fees = 91;
  staking_rewards = 92;
  tips = 93;
  register_origin = λ o. true;
  staking_origin = ensure_staking;
  governance_origin = ensure_governance;
  transfer = λ w a b n p. ok (w + 1);
  balance = λ w a. 10 ^ 24;
  minimum_balance = λ w. 1;
  keccak256 = first;
  abi_encode = λ t. 1 ∷ [];
  scale_encode_network = λ n. [];
  scale_encode_transact = λ t. 1 ∷ [];
  add_weight = λ a b. a;
  weigh_transact = λ d g. record { ref_time = g; proof_size = 0 };
  weigh = λ d m. some (record { ref_time = 1; proof_size = 0 });
  send_xcm = λ w f d m. sent (w + 1);
  fee_location = λ l p. none;
}

abbrev pub empty_oracle : Oracle
empty_oracle = record {
  last_reported_timestamp = λ q. none;
  last_stake_amount_update = 0;
  reports = λ q t. none;
  reported_timestamps_by_index = λ q i. none;
  reported_timestamp_count = λ q. 0;
  reported_values_by_timestamp = λ q t. none;
  staker_reports_submitted_by_query_id = λ r q. 0;
  time_of_last_new_value = none;
}

abbrev pub empty_staking : Staking
empty_staking = record {
  accumulated_reward_per_share = 0;
  reward_rate = 0;
  stake_amount = 100 * 10 ^ 18;
  staker_details = [];
  time_of_last_allocation = 0;
  total_reward_debt = 0;
  total_stake_amount = 0;
  total_stakers = 0;
  to_withdraw = 0;
}

abbrev pub genesis : Pallet ℕ
genesis = record {
  autopay = record {
    data_feeds = λ q f. none;
    data_feed_reward_claimed = λ q f t. false;
    feeds_with_funding = [];
    query_id_from_data_feed_id = λ f. none;
    query_ids_with_funding = [];
    tips = λ q i. none;
    tip_count = λ q. 0;
    user_tips_total = λ a. 0;
  };
  oracle = empty_oracle;
  staking = empty_staking;
  governance = record {
    dispute_fee = 100;
    dispute_ids_by_reporter = λ r d. false;
    dispute_info = λ d. none;
    open_disputes_on_id = λ q. none;
    pending_votes = [];
    vote_count = 0;
    vote_info = λ d r. none;
    vote_rounds = λ d. 0;
    votes = λ d r v. false;
    vote_tally_by_address = λ a. 0;
  };
  query_data = λ q. none;
  world = 0;
  now = 1_000_000;
  block_number = 1;
  events = [];
}

-- The state after a call that succeeds.
pub after {ℓ} : {A : Type ℓ} (r : Result A) (d : A) → is_ok r ≡ true → r ≡ ok (ok_value r d)
after (ok a) d h = refl
after (err e) d h = cc

abbrev pub at : ℕ → Pallet ℕ → Pallet ℕ
at time s = record s { now = time }
