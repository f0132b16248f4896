-- ===== src/Tests/Ledger.antt =====
-- A run of an execution over an asset that keeps accounts.
use tellor_pallet.Base.{
  ℕ, ◌+◌, ◌-◌, ◌≡◌, ◌≢◌, refl, true, some, [], ◌∷◌, arith, set, leb, if◌then◌else◌,
}
use tellor_pallet.Types.{Result, ok, err, DispatchError, is_ok, ok_value, Vote, VoteResult, Dispute}
use tellor_pallet.Config.{Config, Preservation, sent}
use tellor_pallet.State.{Pallet}
use tellor_pallet.Governance.Outcome.{execute_vote, pay_fees}
use tellor_pallet.Governance.Outcome.Fees.{IsLedger, total_fees, fees_due, execute_vote-fees}
use tellor_pallet.Tests.{runtime, after}
use tellor_pallet.Tests.Votes
use tellor_pallet.Tests.Votes.{decided}

-- The balance of each account.
abbrev pub Accounts : Type 0
Accounts = ℕ → ℕ

-- A transfer that is covered.
unfoldable pub pay : Accounts → ℕ → ℕ → ℕ → Preservation → Result Accounts
pay w source dest amount p =
    if leb amount (w source)
    then (let rest = set source (w source - amount) w in ok (set dest (rest dest + amount) rest))
    else err (DispatchError.token 0)

abbrev pub bank : Config Accounts
bank = record {
  balance_max = runtime.balance_max;
  decimals = runtime.decimals;
  ethereum_xcm_pallet_index = runtime.ethereum_xcm_pallet_index;
  fee = runtime.fee;
  governance = runtime.governance;
  initial_dispute_fee = runtime.initial_dispute_fee;
  max_claim_timestamps = runtime.max_claim_timestamps;
  max_disputed_time_series = runtime.max_disputed_time_series;
  minimum_stake_amount = runtime.minimum_stake_amount;
  parachain_id = runtime.parachain_id;
  registry = runtime.registry;
  stake_amount_currency_target = runtime.stake_amount_currency_target;
  staking_token_price_query_id = runtime.staking_token_price_query_id;
  staking_to_local_token_price_query_id = runtime.staking_to_local_token_price_query_id;
  update_stake_amount_interval = runtime.update_stake_amount_interval;
  weight_to_fee = runtime.weight_to_fee;
  xcm_weight_to_asset = runtime.xcm_weight_to_asset;
  pallet_index = runtime.pallet_index;
  weights = runtime.weights;
  account = runtime.account;
  dispute_fees = runtime.dispute_fees;
  staking_rewards = runtime.staking_rewards;
  tips = runtime.tips;
  register_origin = runtime.register_origin;
  staking_origin = runtime.staking_origin;
  governance_origin = runtime.governance_origin;
  transfer = pay;
  balance = λ w a. w a;
  minimum_balance = λ w. 1;
  keccak256 = runtime.keccak256;
  abi_encode = runtime.abi_encode;
  scale_encode_network = runtime.scale_encode_network;
  scale_encode_transact = runtime.scale_encode_transact;
  add_weight = runtime.add_weight;
  weigh_transact = runtime.weigh_transact;
  weigh = runtime.weigh;
  send_xcm = λ w f d m. sent w;
  fee_location = runtime.fee_location;
}

pub bank-IsLedger : IsLedger bank
unfolding pay
bank-IsLedger = record {
  taken = λ e apart. ground arith;
  given = λ e apart. ground arith;
  others = λ e apart apart'. ground arith;
}

-- The dispute that was decided, a day later.
abbrev due : Pallet Accounts
due = record {
  autopay = decided.autopay;
  oracle = decided.oracle;
  staking = decided.staking;
  governance = decided.governance;
  query_data = decided.query_data;
  world = λ a. 10_000;
  now = 1_200_000;
  block_number = decided.block_number;
  events = [];
}

abbrev execution : Result (Pallet Accounts × ℕ)
execution = execute_vote bank 9 due

unfoldable evaluate : ℕ
unfolding Votes.evaluate execute_vote pay_fees pay
evaluate = 0

executes : is_ok execution ≡ true
unfolding evaluate
executes = refl

abbrev closed : Pallet Accounts × ℕ
closed = ok_value execution (due, 0)

abbrev dispute : Dispute
dispute = record {
  query_id = 5;
  timestamp = 1_000_000;
  value = 1 ∷ [];
  disputed_reporter = 7;
  slashed_amount = 100;
}

known : due.governance.dispute_info 9 ≡ some dispute
unfolding evaluate
known = refl

others_initiate :
    (round : ℕ) (v : Vote) → due.governance.vote_info 9 round ≡ some v → 91 ≢ v.initiator
unfolding evaluate
others_initiate round v e same = ground arith

execute_vote-fees_example :
    (result : VoteResult) × (vote : Vote) × (due.governance.vote_info 9
        (due.governance.vote_rounds 9)
      ≡ some vote)
    × (vote.result ≡ some result)
    × (closed.0.world 91 + total_fees (due.governance.vote_info 9) (due.governance.vote_rounds 9)
        ≡ 10_000)
    × ((account : ℕ)
        → account ≢ 91
        → closed.0.world account
          ≡ 10_000
            + fees_due result 7 account (due.governance.vote_info 9) (due.governance.vote_rounds 9))
execute_vote-fees_example =
    execute_vote-fees bank 9 closed.1 dispute due closed.0 bank-IsLedger known
      (λ e. absurd (omega (arith, e))) others_initiate (after execution (due, 0) executes)
