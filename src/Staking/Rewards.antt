-- ===== src/Staking/Rewards.antt =====
-- `update_rewards` of src/impls.rs: the accumulated reward per staked token.
use tellor_pallet.Base.{ℕ, ◌+◌, ◌*◌, ◌/◌, ◌||◌, if◌then◌else◌, leb, ◌==◌}
use tellor_pallet.Base.Machine.{checked, checked_sub, checked_div, wrapping_sub, u64_max, u256_max}
use tellor_pallet.Types.{Result, ok, ◌>>=◌, no_overflow, no_underflow, no_zero_division, no_panic}
use tellor_pallet.Types.Convert.{u256_to_balance}
use tellor_pallet.Config.{Config}
use tellor_pallet.State.{Staking}
use tellor_pallet.Staking.Amounts.{convert, unit}

-- `accumulated * total_stake / unit - debt`: the rewards owed at an accumulated reward per share.
unfoldable pub owed_rewards : ℕ → ℕ → ℕ → ℕ → Result ℕ
owed_rewards accumulated total_stake unit debt = do
  product ← no_overflow (checked u256_max (accumulated * total_stake))
  quotient ← no_zero_division (checked_div product unit)
  no_underflow (checked_sub quotient debt)

module _ {W : Type 0} (c : Config W) where
  -- The rewards have run out: what is left is shared, and the rate becomes zero.
  unfoldable pub exhaust_rewards : ℕ → ℕ → ℕ → ℕ → Staking → Result Staking
  exhaust_rewards timestamp rewards_balance total_stake unit st = do
    owed ← owed_rewards st.accumulated_reward_per_share total_stake unit st.total_reward_debt
    new_pending_rewards ← no_underflow (checked_sub rewards_balance owed)
    scaled ← no_overflow (checked u256_max (new_pending_rewards * unit))
    accumulated ← no_overflow (
        checked c.balance_max
          (st.accumulated_reward_per_share + u256_to_balance c.balance_max (scaled / total_stake)))
    ok (record st {
      accumulated_reward_per_share = accumulated;
      reward_rate = 0;
      time_of_last_allocation = timestamp;
    })

  unfoldable pub allocate_rewards : ℕ → ℕ → ℕ → Staking → Result Staking
  allocate_rewards timestamp rewards_balance total_stake st = do
    one ← unit c
    let elapsed = wrapping_sub u64_max timestamp st.time_of_last_allocation
    released ← no_overflow (checked u256_max (elapsed * st.reward_rate))
    scaled ← no_overflow (checked u256_max (released * one))
    new_accumulated ←
        no_panic (checked u256_max (st.accumulated_reward_per_share + scaled / total_stake))
    accumulated_reward ← owed_rewards new_accumulated total_stake one st.total_reward_debt
    if leb rewards_balance accumulated_reward
        then exhaust_rewards timestamp rewards_balance total_stake one st
        else ok (record st {
          accumulated_reward_per_share = u256_to_balance c.balance_max new_accumulated;
          time_of_last_allocation = timestamp;
        })

  -- `update_rewards`, given the time and the balance of the staking rewards account.
  unfoldable pub update_rewards : ℕ → ℕ → Staking → Result Staking
  update_rewards timestamp rewards_balance st =
      if st.time_of_last_allocation == timestamp then ok st else (do
        total_stake ← convert c st.total_stake_amount
        if total_stake == 0 || st.reward_rate == 0
            then ok (record st { time_of_last_allocation = timestamp })
            else allocate_rewards timestamp rewards_balance total_stake st)
