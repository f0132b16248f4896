-- ===== src/Tests/Payments.antt =====
-- Runs of a claim of a one-time tip and of an update of the staking rewards.
use tellor_pallet.Base.{
  ℕ, ◌+◌, ◌*◌, ◌/◌, ◌^◌, ◌≡◌, ◌≤◌, refl, true, some, [], ◌∷◌, set, set₂, arith,
}
use tellor_pallet.Types.{Result, ok, is_ok, ok_value, signed, Tip}
use tellor_pallet.State.{Staking, Pallet}
use tellor_pallet.Staking.Rewards.{owed_rewards, exhaust_rewards, allocate_rewards, update_rewards}
use tellor_pallet.Staking.Amounts.{convert, convert_to_decimals, unit}
use tellor_pallet.Staking.Stakes.{do_add_staking_rewards}
use tellor_pallet.Staking.Solvency.{update_rewards-covered}
use tellor_pallet.Autopay.ClaimTip.{pay_reward}
use tellor_pallet.Autopay.Tips.{get_current_tip}
use tellor_pallet.Autopay.Onetime.{
  claim_onetime_tip, claim_onetime_all, get_onetime_tip_amount, tip_amount_of, earlier_tips,
  search_tips, search_tips_before,
}
use tellor_pallet.Autopay.Onetime.Once.{AllRefused, claim_onetime_tip-once}
use tellor_pallet.Tests.{runtime, genesis, after, empty_staking}
use tellor_pallet.Tests.Reads
use tellor_pallet.Tests.Reads.{reported2}

unfoldable evaluate : ℕ
unfolding Reads.evaluate do_add_staking_rewards owed_rewards exhaust_rewards allocate_rewards
    update_rewards convert convert_to_decimals unit pay_reward claim_onetime_tip claim_onetime_all
    get_onetime_tip_amount tip_amount_of earlier_tips search_tips search_tips_before get_current_tip
evaluate = 0

abbrev one_tip : Tip
one_tip = record { amount = 50; timestamp = 900_000; cumulative_tips = 50 }

-- A tip before the first report.
abbrev tipped : Pallet ℕ
tipped = record reported2 {
  autopay = record reported2.autopay {
    tips = set₂ 5 0 (some one_tip) reported2.autopay.tips;
    tip_count = set 5 1 reported2.autopay.tip_count;
  };
}

abbrev claim : Result (Pallet ℕ)
claim = claim_onetime_tip runtime (signed 7) 5 (1_000_000 ∷ []) tipped

claims : is_ok claim ≡ true
unfolding evaluate
claims = refl

abbrev paid : Pallet ℕ
paid = ok_value claim genesis

claim_onetime_tip-once_example :
    AllRefused runtime 5 (record paid { now = 2_000_000 }) (1_000_000 ∷ [])
claim_onetime_tip-once_example =
    claim_onetime_tip-once runtime 7 5 (1_000_000 ∷ []) tipped paid
      (record paid { now = 2_000_000 }) (after claim genesis claims) refl

-- A hundred tokens staked, at a rate of a token a second.
abbrev earning : Staking
earning = record empty_staking { total_stake_amount = 100 * 10 ^ 18; reward_rate = 10 ^ 18 }

abbrev update : Result Staking
update = update_rewards runtime 10 (5 * 10 ^ 18) earning

updates : is_ok update ≡ true
unfolding evaluate
updates = refl

abbrev allocated : Staking
allocated = ok_value update earning

-- Ten tokens are released, but five are left, and are shared.
shares : allocated.accumulated_reward_per_share ≡ 5 * 10 ^ 16
unfolding evaluate
shares = refl

staked : convert runtime earning.total_stake_amount ≡ ok (100 * 10 ^ 18)
unfolding evaluate
staked = refl

units : unit runtime ≡ ok (10 ^ 18)
unfolding evaluate
units = refl

update_rewards-covered_example :
    allocated.accumulated_reward_per_share * (100 * 10 ^ 18) / 10 ^ 18
    ≤ 5 * 10 ^ 18 + allocated.total_reward_debt
update_rewards-covered_example =
    update_rewards-covered runtime 10 (5 * 10 ^ 18) (100 * 10 ^ 18) (10 ^ 18) earning allocated
      (λ e. absurd (omega (arith, e))) staked units (omega arith) (omega arith)
      (after update earning updates)
