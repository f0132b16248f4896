-- ===== src/Staking/Totals.antt =====
-- The totals of the staking storage are the sums over the stakers.
use tellor_pallet.Base.{ℕ, ◌+◌, ◌≡◌, refl, ◌∙◌, some, arith, lookup, total, inl, inr, ◌⊎◌}
use tellor_pallet.Types.{ok, err, DispatchError, StakeInfo, Result-cases}
use tellor_pallet.Config.{Config}
use tellor_pallet.State.{Staking, Pallet}
use tellor_pallet.Staking.Amounts.{convert, unit, convert_to_decimals}
use tellor_pallet.Staking.Rewards.{update_rewards, allocate_rewards, exhaust_rewards}
use tellor_pallet.Staking.Stakes.{
  pay_pending, enter_stake, refresh_rate, count_staker, update_stake_and_pay_rewards,
}

pub record Totals (st : Staking) : Type 0 where
  pub stakes : st.total_stake_amount ≡ total (λ i. i.staked_balance) st.staker_details
  pub debts : st.total_reward_debt ≡ total (λ i. i.reward_debt) st.staker_details
  pub withdrawals : st.to_withdraw ≡ total (λ i. i.locked_balance) st.staker_details
  pub no_stake_no_debt :
      (k : ℕ) (i : StakeInfo)
      → lookup k st.staker_details ≡ some i
      → i.staked_balance ≡ 0
      → i.reward_debt ≡ 0

-- What an update of the rewards leaves alone.
pub record SameStakes (st st' : Staking) : Type 0 where
  pub details : st'.staker_details ≡ st.staker_details
  pub stakes : st'.total_stake_amount ≡ st.total_stake_amount
  pub debts : st'.total_reward_debt ≡ st.total_reward_debt
  pub withdrawals : st'.to_withdraw ≡ st.to_withdraw
  pub minimum : st'.stake_amount ≡ st.stake_amount
  pub stakers : st'.total_stakers ≡ st.total_stakers

module _ {W : Type 0} (c : Config W) where
  exhaust-SameStakes :
      (t b n u : ℕ) (st st' : Staking) → exhaust_rewards c t b n u st ≡ ok st' → SameStakes st st'
  unfolding exhaust_rewards
  exhaust-SameStakes t b n u st st' e = ground arith

  allocate-SameStakes :
      (t b n : ℕ) (st st' : Staking) → allocate_rewards c t b n st ≡ ok st' → SameStakes st st'
  unfolding allocate_rewards
  allocate-SameStakes t b n st st' e = grind (arith, exhaust-SameStakes)

  pub update-SameStakes :
      (t b : ℕ) (st st' : Staking) → update_rewards c t b st ≡ ok st' → SameStakes st st'
  unfolding update_rewards
  update-SameStakes t b st st' e = grind (arith, allocate-SameStakes)

  -- A staker that is paid leaves the totals.
  pay_pending-totals :
      (staker one : ℕ) (info : StakeInfo) (s s' : Pallet W)
      → (info.staked_balance ≡ 0 → info.reward_debt ≡ 0)
      → pay_pending c staker one info s ≡ ok s'
      → (s'.staking.total_stake_amount + info.staked_balance ≡ s.staking.total_stake_amount)
        × (s'.staking.total_reward_debt + info.reward_debt ≡ s.staking.total_reward_debt)
        × (s'.staking.staker_details ≡ s.staking.staker_details)
        × (s'.staking.to_withdraw ≡ s.staking.to_withdraw)
  unfolding pay_pending
  pay_pending-totals staker one info s s' h e = ground arith

  pub refresh_rate-SameStakes :
      (b n u : ℕ) (st st' : Staking) → refresh_rate c b n u st ≡ ok st' → SameStakes st st'
  unfolding refresh_rate
  refresh_rate-SameStakes b n u st st' e = ground arith

  -- It enters them with its new balance and debt.
  enter_stake-totals :
      (balance b one : ℕ) (info info' : StakeInfo) (st st' : Staking)
      → enter_stake c balance b one info st ≡ ok (st', info')
      → (st'.total_stake_amount ≡ st.total_stake_amount + balance)
        × (st'.total_reward_debt ≡ st.total_reward_debt + info'.reward_debt)
        × (st'.staker_details ≡ st.staker_details)
        × (st'.to_withdraw ≡ st.to_withdraw)
        × (info'.staked_balance ≡ balance)
        × (info'.locked_balance ≡ info.locked_balance)
        × (info'.address ≡ info.address)
  unfolding enter_stake count_staker
  enter_stake-totals balance b one info info' st st' e = grind (arith, refresh_rate-SameStakes)

  convert-zero : convert c 0 ≡ ok 0
  unfolding convert convert_to_decimals
  convert-zero = refl

  -- A staker without a balance has no reward debt.
  enter_stake-no_debt :
      (balance b one : ℕ) (info info' : StakeInfo) (st st' : Staking)
      → enter_stake c balance b one info st ≡ ok (st', info')
      → balance ≡ 0
      → info'.reward_debt ≡ 0
  unfolding enter_stake
  enter_stake-no_debt balance b one info info' st st' e zero_ = ground (arith, convert-zero)

  -- What the call does to the totals.
  abbrev pub Moved : ℕ → StakeInfo → StakeInfo → Pallet W → Pallet W → Type 0
  Moved balance info info' s s' =
      (s'.staking.total_stake_amount + info.staked_balance ≡ s.staking.total_stake_amount + balance)
      × (s'.staking.total_reward_debt + info.reward_debt
          ≡ s.staking.total_reward_debt + info'.reward_debt)
      × (s'.staking.staker_details ≡ s.staking.staker_details)
      × (s'.staking.to_withdraw ≡ s.staking.to_withdraw)
      × (info'.staked_balance ≡ balance)
      × (info'.locked_balance ≡ info.locked_balance)
      × (balance ≡ 0 → info'.reward_debt ≡ 0)

  -- The call as a whole: the staker's old balance and debt leave the totals, the new ones enter.
  pub update_stake-totals :
      (staker balance : ℕ) (info info' : StakeInfo) (s s' : Pallet W)
      → (info.staked_balance ≡ 0 → info.reward_debt ≡ 0)
      → update_stake_and_pay_rewards c staker info balance s ≡ ok (s', info')
      → Moved balance info info' s s'
  unfolding update_stake_and_pay_rewards
  update_stake-totals staker balance info info' s s' h e =
      elim (Result-cases (update_rewards c s.now (c.balance s.world c.staking_rewards) s.staking)) [
        | inr (x, failed) ↦ absurd (ground arith)
        | inl (st, updated) ↦ elim (Result-cases (unit c)) [
          | inr (x, failed) ↦ absurd (ground arith)
          | inl (one, eone) ↦
              elim (Result-cases (pay_pending c staker one info (record s { staking = st }))) [
                | inr (x, failed) ↦ absurd (ground arith)
                | inl (s1, paid) ↦ entered st one s1 updated eone paid (
                    Result-cases (
                      enter_stake c balance (c.balance s1.world c.staking_rewards) one info
                        s1.staking))
              ]
        ]
      ]
    where
      entered :
          (st : Staking) (one : ℕ) (s1 : Pallet W)
          → update_rewards c s.now (c.balance s.world c.staking_rewards) s.staking ≡ ok st
          → unit c ≡ ok one
          → pay_pending c staker one info (record s { staking = st }) ≡ ok s1
          → ((r : Staking × StakeInfo) × (enter_stake c balance
                  (c.balance s1.world c.staking_rewards)
                  one
                  info
                  s1.staking
                ≡ ok r))
            ⊎ ((x : DispatchError) × (enter_stake c balance
                    (c.balance s1.world c.staking_rewards)
                    one
                    info
                    s1.staking
                  ≡ err x))
          → Moved balance info info' s s'
      entered st one s1 updated eone paid (inr (x, failed)) = absurd (ground arith)
      entered st one s1 updated eone paid (inl ((st', info2), stake)) =
          let a =
            update-SameStakes s.now (c.balance s.world c.staking_rewards) s.staking st updated in
          let b = pay_pending-totals staker one info (record s { staking = st }) s1 h paid in
          let d =
            enter_stake-totals balance (c.balance s1.world c.staking_rewards) one info info2
              s1.staking st' stake in
          let f =
            enter_stake-no_debt balance (c.balance s1.world c.staking_rewards) one info info2
              s1.staking st' stake in
          let same_info : info' ≡ info2 = ground arith in
          let same_staking : s'.staking ≡ st' = ground arith in
          rw (same_info, same_staking)
            (
              omega arith,
              omega arith,
              d.2 ∙ b.2 ∙ a.details,
              d.3 ∙ b.3 ∙ a.withdrawals,
              d.4,
              d.5,
              f,
            )
