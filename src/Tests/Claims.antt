-- ===== src/Tests/Claims.antt =====
-- A run of a claim of a feed's reward.
use tellor_pallet.Base.{ℕ, ◌≡◌, refl, true, some, [], ◌∷◌, set₂}
use tellor_pallet.Types.{Result, is_ok, ok_value, signed, Feed}
use tellor_pallet.State.{Pallet}
use tellor_pallet.Staking.Stakes.{do_add_staking_rewards}
use tellor_pallet.Staking.Rewards.{owed_rewards, exhaust_rewards, allocate_rewards, update_rewards}
use tellor_pallet.Staking.Amounts.{convert, convert_to_decimals, unit}
use tellor_pallet.Autopay.Rewards.{do_get_reward_amount, reward_of, price_change, interval_start}
use tellor_pallet.Autopay.ClaimTip.{claim_one, claim_all, claim_tip, pay_reward}
use tellor_pallet.Autopay.ClaimTip.Once.{claimed, ClaimedOnce, claim_tip-once}
use tellor_pallet.Autopay.Onetime.{search_tips, tip_fuel}
use tellor_pallet.Autopay.Onetime.Search.{Found, search_tips-Found}
use tellor_pallet.Types.{Tip}
use tellor_pallet.Base.{◌*◌}
use tellor_pallet.Base.{Option, arith}
use tellor_pallet.Types.{ok}
use tellor_pallet.Tests.{runtime, genesis, after}
use tellor_pallet.Tests.Reads
use tellor_pallet.Tests.Reads.{reported2}

unfoldable pub evaluate : ℕ
unfolding Reads.evaluate do_add_staking_rewards owed_rewards exhaust_rewards allocate_rewards
    update_rewards convert convert_to_decimals unit do_get_reward_amount reward_of price_change
    interval_start claim_one claim_all claim_tip pay_reward
evaluate = 0

abbrev pub feed : Feed
feed = record {
  reward = 10;
  balance = 25;
  start_time = 1_000_000;
  interval = 3_600;
  window = 600;
  price_threshold = 0;
  reward_increase_per_second = 0;
}

abbrev pub funded : Pallet ℕ
funded = record reported2 {
  autopay = record reported2.autopay {
    data_feeds = set₂ 5 4 (some feed) reported2.autopay.data_feeds;
  };
}

abbrev claim : Result (Pallet ℕ)
claim = claim_tip runtime (signed 7) 4 5 (1_000_000 ∷ []) funded

claims : is_ok claim ≡ true
unfolding evaluate
claims = refl

abbrev rewarded : Pallet ℕ
rewarded = ok_value claim genesis

claim_tip-once_example : ClaimedOnce (claimed 5 4 funded) (claimed 5 4 rewarded) (1_000_000 ∷ [])
claim_tip-once_example =
    claim_tip-once runtime 7 4 5 (1_000_000 ∷ []) funded rewarded (after claim genesis claims)

-- A tip every ten seconds.
abbrev tips : ℕ → Option Tip
tips i = some (record { amount = 5; timestamp = i * 10; cumulative_tips = 5 })

search_tips-Found_example :
    (r : ℕ) × (search_tips tip_fuel tips 47 0 9 ≡ some (ok r)) × Found tips 47 0 9 r
search_tips-Found_example = search_tips-Found tips 47 9 (omega arith)

finds_tip : search_tips tip_fuel tips 47 0 9 ≡ some (ok 4)
unfolding search_tips
finds_tip = refl
