-- ===== src/Staking/Reports/Totals.antt =====
-- Deposits and withdrawal requests keep the totals: `report_stake_deposited` and
-- `report_staking_withdraw_request` of src/lib.rs.
use tellor_pallet.Base.{
  ℕ, ◌+◌, ◌-◌, ◌≡◌, refl, sym, ◌∙◌, arith, lookup, Option-cases, inl, inr, unwrap_or,
}
use tellor_pallet.Types.{ok, StakeInfo, Result-cases, new_stake_info, Origin}
use tellor_pallet.Config.{Config}
use tellor_pallet.State.{Pallet}
use tellor_pallet.Staking.Stakes.{update_stake_and_pay_rewards}
use tellor_pallet.Staking.Totals.{Totals, update_stake-totals}
use tellor_pallet.Staking.Reports.{
  use_locked, report_stake_deposited, report_staking_withdraw_request,
}
use tellor_pallet.Staking.Reports.Replaces.{Replaces, put, put-Totals, put_any-Totals, any-no_debt}

module _ {W : Type 0} (c : Config W) where
  use_locked-moves :
      (reporter amount : ℕ) (staker info : StakeInfo) (s s' : Pallet W)
      → use_locked c reporter amount staker s ≡ ok (s', info)
      → (s'.staking.to_withdraw + staker.locked_balance
          ≡ s.staking.to_withdraw + info.locked_balance)
        × (s'.staking.staker_details ≡ s.staking.staker_details)
        × (s'.staking.total_stake_amount ≡ s.staking.total_stake_amount)
        × (s'.staking.total_reward_debt ≡ s.staking.total_reward_debt)
        × (info.staked_balance ≡ staker.staked_balance)
        × (info.reward_debt ≡ staker.reward_debt)
  unfolding use_locked
  use_locked-moves reporter amount staker info s s' e = ground arith

  deposit-Replaces :
      (reporter amount new_balance : ℕ) (staker info1 info2 : StakeInfo) (s s1 s2 : Pallet W)
      (date : ℕ)
      → (staker.staked_balance ≡ 0 → staker.reward_debt ≡ 0)
      → use_locked c reporter amount staker s ≡ ok (s1, info1)
      → update_stake_and_pay_rewards c reporter info1 new_balance s1 ≡ ok (s2, info2)
      → Replaces s.staking s2.staking staker (record info2 { start_date = date })
  deposit-Replaces reporter amount new_balance staker info1 info2 s s1 s2 date h e1 e2 =
      let (locked, details, stakes, debts, staked, debt) =
        use_locked-moves reporter amount staker info1 s s1 e1 in
      let (stakes', debts', details', locked', balance, kept, none_) =
        update_stake-totals c reporter new_balance info1 info2 s1 s2
          (λ z. debt ∙ h (sym staked ∙ z)) e2 in
      record {
        details = details' ∙ details;
        stakes = omega arith;
        debts = omega arith;
        withdrawals = omega arith;
        no_debt = λ z. none_ (sym balance ∙ z);
      }

  -- A deposit that is accepted keeps the totals, that is, if the total stake, the total reward debt
  -- and the amount to withdraw are the sums over all stakers and a staker without a stake has no
  -- reward debt, this stays so.
  pub report_stake_deposited-Totals :
      (origin : Origin) (reporter amount address : ℕ) (s s' : Pallet W)
      → Totals s.staking
      → report_stake_deposited c origin reporter amount address s ≡ ok s'
      → Totals s'.staking
  unfolding report_stake_deposited
  report_stake_deposited-Totals origin reporter amount address s s' t e =
      let staker = unwrap_or (lookup reporter s.staking.staker_details) (new_stake_info address) in
      elim (Result-cases (use_locked c reporter amount staker s)) [
        | inr (x, failed) ↦ absurd (ground arith)
        | inl ((s1, info1), e1) ↦
            elim (Result-cases
              (update_stake_and_pay_rewards c reporter info1 (staker.staked_balance + amount) s1)) [
                | inr (x, failed) ↦ absurd (ground arith)
                | inl ((s2, info2), e2) ↦
                    let same : s'.staking
                        ≡ put reporter (record info2 { start_date = s.now }) s2.staking =
                      ground arith in
                    rw same (
                      put_any-Totals reporter s.staking s2.staking address _ t (
                        deposit-Replaces reporter amount (staker.staked_balance + amount) staker
                          info1 info2 s s1 s2 s.now (any-no_debt reporter s.staking address t) e1
                          e2))
              ]
      ]

  request-Replaces :
      (reporter amount new_balance locked_balance locked date : ℕ) (staker info : StakeInfo)
      (s s1 : Pallet W)
      → (staker.staked_balance ≡ 0 → staker.reward_debt ≡ 0)
      → update_stake_and_pay_rewards c reporter staker new_balance s ≡ ok (s1, info)
      → locked_balance ≡ info.locked_balance + amount
      → locked ≡ s1.staking.to_withdraw + amount
      → Replaces s.staking
          (record s1.staking { to_withdraw = locked })
          staker
          (record info { start_date = date; locked_balance = locked_balance })
  request-Replaces reporter amount new_balance locked_balance locked date staker info s s1 h e1 e2
        e3 =
      let (stakes', debts', details', locked', balance, kept, none_) =
        update_stake-totals c reporter new_balance staker info s s1 h e1 in
      record {
        details = details';
        stakes = omega arith;
        debts = omega arith;
        withdrawals = omega arith;
        no_debt = λ z. none_ (sym balance ∙ z);
      }

  -- A withdrawal request that is accepted keeps the totals.
  pub report_staking_withdraw_request-Totals :
      (origin : Origin) (reporter amount address : ℕ) (s s' : Pallet W)
      → Totals s.staking
      → report_staking_withdraw_request c origin reporter amount address s ≡ ok s'
      → Totals s'.staking
  unfolding report_staking_withdraw_request
  report_staking_withdraw_request-Totals origin reporter amount address s s' t e =
      elim (Option-cases (lookup reporter s.staking.staker_details)) [
        | inl unknown ↦ absurd (ground arith)
        | inr (staker, known) ↦
            elim (Result-cases
              (update_stake_and_pay_rewards c reporter staker (staker.staked_balance - amount) s)) [
                | inr (x, failed) ↦ absurd (ground arith)
                | inl ((s1, info), e1) ↦
                    let same : s'.staking
                        ≡ put reporter
                            (record info {
                              start_date = s.now;
                              locked_balance = info.locked_balance + amount;
                            })
                            (record s1.staking { to_withdraw = s1.staking.to_withdraw + amount }) =
                      ground arith in
                    rw same (
                      put-Totals reporter s.staking _ staker _ t known (
                        request-Replaces reporter amount (staker.staked_balance - amount) _ _ s.now
                          staker info s s1 (t.no_stake_no_debt reporter staker known) e1 refl refl))
              ]
      ]
