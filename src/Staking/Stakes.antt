-- ===== src/Staking/Stakes.antt =====
-- `update_stake_and_pay_rewards` and `do_add_staking_rewards` of src/impls.rs.
use tellor_pallet.Base.{ℕ, ◌+◌, ◌-◌, ◌*◌, ◌/◌, true, false, ◌&&◌, if◌then◌else◌, leb, ltb, ◌==◌}
use tellor_pallet.Base.Machine.{
  checked, checked_sub, checked_div, saturating_inc, u64_max, u256_max,
}
use tellor_pallet.Types.{
  Result, ok, ◌>>=◌, no_overflow, no_underflow, no_zero_division, StakeInfo, Origin, ensure_signed,
  staking_rewards_added,
}
use tellor_pallet.Types.Convert.{u256_to_balance}
use tellor_pallet.Config.{Config, expendable, protect}
use tellor_pallet.Constants.{days}
use tellor_pallet.State.{Staking, Pallet, deposit_event}
use tellor_pallet.Staking.Amounts.{convert, unit}
use tellor_pallet.Staking.Rewards.{update_rewards, owed_rewards}

-- The part of the pending reward that the voting participation rate leaves.
unfoldable pub participation : ℕ → ℕ → ℕ → ℕ → StakeInfo → Result ℕ
participation balance_max vote_count vote_tally pending_reward info = do
  number_of_votes ← no_underflow (checked_sub vote_count info.start_vote_count)
  if ltb 0 number_of_votes
      then (do
        tally ← no_underflow (checked_sub vote_tally info.start_vote_tally)
        product ← no_overflow (checked balance_max (pending_reward * tally))
        reward ← no_zero_division (checked_div product number_of_votes)
        ok (if ltb reward pending_reward then reward else pending_reward))
      else ok pending_reward

-- Whether the staker counts, and the number of those that do.
unfoldable pub count_staker : ℕ → StakeInfo → ℕ → StakeInfo × ℕ
count_staker stake_amount info total_stakers =
    if leb stake_amount info.staked_balance
    then (
      record info { staked = true },
      if info.staked then total_stakers else saturating_inc u64_max total_stakers,
    )
    else (
      record info { staked = false },
      if info.staked && ltb 0 total_stakers then total_stakers - 1 else total_stakers,
    )

module _ {W : Type 0} (c : Config W) where
  -- The reward of a staker before participation.
  unfoldable pub pending_reward_of : Staking → ℕ → StakeInfo → Result ℕ
  pending_reward_of st one info = do
    staked ← convert c info.staked_balance
    product ← no_overflow (checked u256_max (staked * st.accumulated_reward_per_share))
    quotient ← no_zero_division (checked_div product one)
    reward ← no_underflow (checked_sub quotient info.reward_debt)
    ok (u256_to_balance c.balance_max reward)

  -- The first half: a staker with a balance is paid, and leaves the totals.
  unfoldable pub pay_pending : ℕ → ℕ → StakeInfo → Pallet W → Result (Pallet W)
  pay_pending staker one info s =
      if ltb 0 info.staked_balance
      then (do
        pending ← pending_reward_of s.staking one info
        reward ←
            participation c.balance_max s.governance.vote_count
              (s.governance.vote_tally_by_address staker) pending info
        world ← c.transfer s.world c.staking_rewards staker reward protect
        debt ← no_underflow (checked_sub s.staking.total_reward_debt info.reward_debt)
        total ← no_underflow (checked_sub s.staking.total_stake_amount info.staked_balance)
        ok (record s {
          world = world;
          staking = record s.staking { total_reward_debt = debt; total_stake_amount = total };
        }))
      else ok s

  -- The reward rate is set anew where it is zero: the free rewards over thirty days.
  unfoldable pub refresh_rate : ℕ → ℕ → ℕ → Staking → Result Staking
  refresh_rate rewards_balance total_stake one st =
      if st.reward_rate == 0
      then (do
        owed ← owed_rewards st.accumulated_reward_per_share total_stake one st.total_reward_debt
        free ← no_underflow (checked_sub rewards_balance owed)
        ok (record st { reward_rate = u256_to_balance c.balance_max (free / (30 * days)) }))
      else ok st

  -- The second half: the new balance, and the totals with it.
  unfoldable pub enter_stake : ℕ → ℕ → ℕ → StakeInfo → Staking → Result (Staking × StakeInfo)
  enter_stake new_staked_balance rewards_balance one info st = do
    let (counted, total_stakers) =
        count_staker st.stake_amount (record info { staked_balance = new_staked_balance })
          st.total_stakers
    staked ← convert c new_staked_balance
    product ← no_overflow (checked u256_max (staked * st.accumulated_reward_per_share))
    quotient ← no_zero_division (checked_div product one)
    let reward_debt = u256_to_balance c.balance_max quotient
    debt ← no_overflow (checked c.balance_max (st.total_reward_debt + reward_debt))
    total ← no_overflow (checked u256_max (st.total_stake_amount + new_staked_balance))
    total_stake ← convert c total
    st' ← refresh_rate rewards_balance total_stake one (record st {
      total_stakers = total_stakers;
      total_reward_debt = debt;
      total_stake_amount = total;
    })
    ok (st', record counted { reward_debt = reward_debt })

  unfoldable pub update_stake_and_pay_rewards :
      ℕ → StakeInfo → ℕ → Pallet W → Result (Pallet W × StakeInfo)
  update_stake_and_pay_rewards staker info new_staked_balance s = do
    st ← update_rewards c s.now (c.balance s.world c.staking_rewards) s.staking
    one ← unit c
    s1 ← pay_pending staker one info (record s { staking = st })
    (st', info') ←
        enter_stake new_staked_balance (c.balance s1.world c.staking_rewards) one info s1.staking
    ok (record s1 { staking = st' }, info')

  -- `do_add_staking_rewards`.
  unfoldable pub do_add_staking_rewards : ℕ → ℕ → Pallet W → Result (Pallet W)
  do_add_staking_rewards source amount s = do
    world ←
        (if ltb 0 amount
          then c.transfer s.world source c.staking_rewards amount expendable
          else ok s.world)
    let rewards_balance = c.balance world c.staking_rewards
    st ← update_rewards c s.now rewards_balance s.staking
    total_stake ← convert c st.total_stake_amount
    one ← unit c
    owed ← owed_rewards st.accumulated_reward_per_share total_stake one st.total_reward_debt
    free ← no_underflow (checked_sub rewards_balance owed)
    ok (record s {
      world = world;
      staking = record st { reward_rate = u256_to_balance c.balance_max (free / (30 * days)) };
    })

  -- `add_staking_rewards` of src/lib.rs.
  unfoldable pub add_staking_rewards : Origin → ℕ → Pallet W → Result (Pallet W)
  add_staking_rewards origin amount s = do
    source ← ensure_signed origin
    s1 ← do_add_staking_rewards source amount s
    ok (if ltb 0 amount then deposit_event (staking_rewards_added source amount) s1 else s1)
