-- ===== src/Staking/Solvency.antt =====
-- The rewards that an update allocates are covered: `update_rewards` of src/impls.rs.
use native.Mathlib.Nat.{
  le-div_iff_mul-le, div-mul-le_self, add-mul-div_right, mul-le-mul_right, add-mul,
}
use tellor_pallet.Base.{
  ℕ, ◌+◌, ◌-◌, ◌*◌, ◌/◌, ◌≤◌, ◌<◌, ◌≡◌, ◌≢◌, arith, inl, inr, Bool-cases, leb, ◌==◌, ◌||◌, false,
}
use tellor_pallet.Base.Machine.{wrapping_sub, u64_max, saturate-le, u128_max, saturate}
use tellor_pallet.Types.{ok, err, DispatchError, Result-cases}
use tellor_pallet.Types.Convert.{u256_to_balance}
use tellor_pallet.Config.{Config}
use tellor_pallet.State.{Staking}
use tellor_pallet.Staking.Totals.{update-SameStakes}
use tellor_pallet.Staking.Amounts.{convert, unit}
use tellor_pallet.Staking.Rewards.{update_rewards, allocate_rewards, exhaust_rewards, owed_rewards}

div_mono : (a b m : ℕ) → 0 < m → a ≤ b → a / m ≤ b / m
div_mono a b m pos h = (le-div_iff_mul-le pos).1 (omega (arith, div-mul-le_self a m))

-- Amounts of so many units come out of the quotient whole.
div_units : (a b u : ℕ) → 0 < u → (a + b * u) / u ≡ a / u + b
div_units a b u pos = add-mul-div_right a b pos

balance-le : (max n : ℕ) → u256_to_balance max n ≤ n
balance-le max n = omega (arith, saturate-le max (saturate u128_max n), saturate-le u128_max n)

owed_lem :
    (acc total one debt owed : ℕ)
    → owed_rewards acc total one debt ≡ ok owed
    → (0 < one) × (acc * total / one ≡ owed + debt)
unfolding owed_rewards
owed_lem acc total one debt owed e = ground arith

-- What is shared out of the free rewards keeps the rewards owed below the balance.
covered :
    (acc total one debt owed balance share : ℕ)
    → 0 < one
    → acc * total / one ≡ owed + debt
    → owed ≤ balance
    → share ≤ (balance - owed) * one / total
    → (acc + share) * total / one ≤ balance + debt
covered acc total one debt owed balance share pos before le small =
    let shared : share * total ≤ (balance - owed) * one =
      omega (arith, mul-le-mul_right total small, div-mul-le_self ((balance - owed) * one) total) in
    let whole : (acc + share) * total ≤ acc * total + (balance - owed) * one =
      omega (arith, add-mul acc share total, shared) in
    omega (
      arith,
      div_mono ((acc + share) * total) (acc * total + (balance - owed) * one) one pos whole,
      div_units (acc * total) (balance - owed) one pos,
    )

module _ {W : Type 0} (c : Config W) where
  exhaust_fails :
      (timestamp balance total one : ℕ) (st st' : Staking) (failure : DispatchError)
      → owed_rewards st.accumulated_reward_per_share total one st.total_reward_debt ≡ err failure
      → exhaust_rewards c timestamp balance total one st ≢ ok st'
  unfolding exhaust_rewards
  exhaust_fails timestamp balance total one st st' failure failed e = ground arith

  exhaust_lem :
      (timestamp balance total one : ℕ) (st st' : Staking) (owed : ℕ)
      → owed_rewards st.accumulated_reward_per_share total one st.total_reward_debt ≡ ok owed
      → exhaust_rewards c timestamp balance total one st ≡ ok st'
      → (owed ≤ balance)
        × (st'.accumulated_reward_per_share
            ≡ st.accumulated_reward_per_share
              + u256_to_balance c.balance_max ((balance - owed) * one / total))
  unfolding exhaust_rewards
  exhaust_lem timestamp balance total one st st' owed found e = ground arith

  exhaust-covered :
      (timestamp balance total one : ℕ) (st st' : Staking)
      → 0 < total
      → exhaust_rewards c timestamp balance total one st ≡ ok st'
      → st'.accumulated_reward_per_share * total / one ≤ balance + st.total_reward_debt
  exhaust-covered timestamp balance total one st st' some_stake e =
      elim (Result-cases
        (owed_rewards st.accumulated_reward_per_share total one st.total_reward_debt)) [
          | inr (failure, failed) ↦
              absurd (exhaust_fails timestamp balance total one st st' failure failed e)
          | inl (owed, found) ↦
              let (pos, before) =
                owed_lem st.accumulated_reward_per_share total one st.total_reward_debt owed
                  found in
              let (le, after) = exhaust_lem timestamp balance total one st st' owed found e in
              rw after (
                covered st.accumulated_reward_per_share total one st.total_reward_debt owed balance
                  _ pos before le
                  (omega (arith, balance-le c.balance_max ((balance - owed) * one / total))))
        ]

  -- The accumulated reward with what was released since the last allocation.
  abbrev released : ℕ → ℕ → ℕ → Staking → ℕ
  released timestamp one total st =
      st.accumulated_reward_per_share
      + wrapping_sub u64_max timestamp st.time_of_last_allocation * st.reward_rate * one / total

  -- An update that allocates leaves the rewards owed to the stakes covered by the balance.
  allocate-covered :
      (timestamp balance total one : ℕ) (st st' : Staking)
      → 0 < total
      → unit c ≡ ok one
      → allocate_rewards c timestamp balance total st ≡ ok st'
      → st'.accumulated_reward_per_share * total / one ≤ balance + st.total_reward_debt
  unfolding allocate_rewards
  allocate-covered timestamp balance total one st st' some_stake ones e =
      let new_acc = released timestamp one total st in
      elim (Result-cases (owed_rewards new_acc total one st.total_reward_debt)) [
        | inr (failure, failed) ↦ absurd (ground arith)
        | inl (owed, found) ↦
            let (pos, before) = owed_lem new_acc total one st.total_reward_debt owed found in
            elim (Bool-cases (leb balance owed)) [
              | inl short ↦
                  exhaust-covered timestamp balance total one st st' some_stake (ground arith)
              | inr enough ↦
                  let more : owed ≤ balance = ground arith in
                  let after : st'.accumulated_reward_per_share
                      ≡ u256_to_balance c.balance_max new_acc =
                    ground arith in
                  rw after (
                    omega (
                      arith,
                      div_mono (u256_to_balance c.balance_max new_acc * total) (new_acc * total) one
                          pos (mul-le-mul_right total (balance-le c.balance_max new_acc)),
                      more,
                      before,
                    ))
            ]
      ]

  -- Where stakes earn rewards and time has passed, an update that is accepted leaves the rewards
  -- owed to the stakes covered: what the accumulated reward gives the total stake is at most the
  -- balance of the staking rewards and the total reward debt together.
  pub update_rewards-covered :
      (timestamp balance total one : ℕ) (st st' : Staking)
      → st.time_of_last_allocation ≢ timestamp
      → convert c st.total_stake_amount ≡ ok total
      → unit c ≡ ok one
      → 0 < total
      → 0 < st.reward_rate
      → update_rewards c timestamp balance st ≡ ok st'
      → st'.accumulated_reward_per_share * total / one ≤ balance + st'.total_reward_debt
  unfolding update_rewards
  update_rewards-covered timestamp balance total one st st' passed staked ones some_stake some_rate
        e =
      let later : (st.time_of_last_allocation == timestamp) ≡ false = ground arith in
      let some_ : (total == 0 || st.reward_rate == 0) ≡ false = ground arith in
      let same = update-SameStakes c timestamp balance st st' e in
      rw same.debts (
        allocate-covered timestamp balance total one st st' some_stake ones
          (simp (later, staked, some_) at e))
