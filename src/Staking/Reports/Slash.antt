-- ===== src/Staking/Reports/Slash.antt =====
-- Slashes keep the totals: `report_slash` of src/lib.rs.
use tellor_pallet.Base.{
  ℕ, ◌+◌, ◌-◌, ◌≤◌, ◌≡◌, sym, ◌∙◌, arith, leb, lookup, Bool-cases, Option-cases, inl, inr,
}
use tellor_pallet.Types.{ok, StakeInfo, Result-cases, Origin}
use tellor_pallet.Config.{Config}
use tellor_pallet.State.{Pallet}
use tellor_pallet.Staking.Stakes.{update_stake_and_pay_rewards}
use tellor_pallet.Staking.Totals.{Totals, update_stake-totals}
use tellor_pallet.Staking.Reports.{put_to_withdraw, slash, report_slash}
use tellor_pallet.Staking.Reports.Replaces.{Replaces, put, put-Totals}

module _ {W : Type 0} (c : Config W) where
  update-Replaces :
      (reporter new_balance locked : ℕ) (staker info : StakeInfo) (s s1 : Pallet W)
      → (staker.staked_balance ≡ 0 → staker.reward_debt ≡ 0)
      → update_stake_and_pay_rewards c reporter staker new_balance s ≡ ok (s1, info)
      → locked + staker.locked_balance ≡ s1.staking.to_withdraw
      → Replaces s.staking
          (record s1.staking { to_withdraw = locked })
          staker
          (record info { locked_balance = 0 })
  update-Replaces reporter new_balance locked staker info s s1 h e1 e2 =
      let (stakes', debts', details', locked', balance, kept, none_) =
        update_stake-totals c reporter new_balance staker info s s1 h e1 in
      record {
        details = details';
        stakes = omega arith;
        debts = omega arith;
        withdrawals = omega arith;
        no_debt = λ z. none_ (sym balance ∙ z);
      }

  exceed-Replaces :
      (reporter locked : ℕ) (staker info : StakeInfo) (s s1 : Pallet W)
      → (staker.staked_balance ≡ 0 → staker.reward_debt ≡ 0)
      → locked + staker.locked_balance ≡ s.staking.to_withdraw
      → update_stake_and_pay_rewards c reporter staker 0 (put_to_withdraw c locked s)
        ≡ ok (s1, info)
      → Replaces s.staking s1.staking staker (record info { locked_balance = 0 })
  exceed-Replaces reporter locked staker info s s1 h e1 e2 =
      let (stakes', debts', details', locked', balance, kept, none_) =
        update_stake-totals c reporter 0 staker info (put_to_withdraw c locked s) s1 h e2 in
      record {
        details = details';
        stakes = omega arith;
        debts = omega arith;
        withdrawals = omega arith;
        no_debt = λ z. none_ (sym balance ∙ z);
      }

  slash-Replaces :
      (reporter amount : ℕ) (staker info : StakeInfo) (s s1 : Pallet W)
      → (staker.staked_balance ≡ 0 → staker.reward_debt ≡ 0)
      → slash c reporter amount staker s ≡ ok (s1, info)
      → Replaces s.staking s1.staking staker info
  unfolding slash
  slash-Replaces reporter amount staker info s s1 h e =
      elim (Bool-cases (leb amount staker.locked_balance)) [
        | inl covered ↦ record {
          details = ground arith;
          stakes = ground arith;
          debts = ground arith;
          withdrawals = ground arith;
          no_debt = λ z. ground arith;
        }
        | inr over ↦
            elim (Bool-cases (leb amount (staker.locked_balance + staker.staked_balance))) [
              | inl both ↦
                  elim (Result-cases (
                    update_stake_and_pay_rewards c reporter staker
                      (staker.staked_balance - (amount - staker.locked_balance)) s)) [
                        | inr (x, failed) ↦ absurd (ground arith)
                        | inl ((s2, info2), e1) ↦
                            let enough : staker.locked_balance ≤ s2.staking.to_withdraw =
                              ground arith in
                            let same : s1.staking ≡ record s2.staking {
                              to_withdraw = s2.staking.to_withdraw - staker.locked_balance;
                            } =
                              ground arith in
                            let same_info : info ≡ record info2 { locked_balance = 0 } =
                              ground arith in
                            rw (same, same_info)
                              (update-Replaces reporter _ _ staker info2 s s2 h e1 (omega arith))
                      ]
              | inr neither ↦
                  elim (Result-cases (
                    update_stake_and_pay_rewards c reporter staker 0
                      (put_to_withdraw c (s.staking.to_withdraw - staker.locked_balance) s))) [
                        | inr (x, failed) ↦ absurd (ground arith)
                        | inl ((s2, info2), e1) ↦
                            let enough : staker.locked_balance ≤ s.staking.to_withdraw =
                              ground arith in
                            let same : s1.staking ≡ s2.staking = ground arith in
                            let same_info : info ≡ record info2 { locked_balance = 0 } =
                              ground arith in
                            rw (same, same_info)
                              (exceed-Replaces reporter _ staker info2 s s2 h (omega arith) e1)
                      ]
            ]
      ]

  -- A slash that is accepted keeps the totals, whichever of its three cases applies: if the total
  -- stake, the total reward debt and the amount to withdraw are the sums over all stakers and a
  -- staker without a stake has no reward debt, this stays so.
  pub report_slash-Totals :
      (origin : Origin) (reporter amount : ℕ) (s s' : Pallet W)
      → Totals s.staking
      → report_slash c origin reporter amount s ≡ ok s'
      → Totals s'.staking
  unfolding report_slash
  report_slash-Totals origin reporter amount s s' t e =
      elim (Option-cases (lookup reporter s.staking.staker_details)) [
        | inl unknown ↦ absurd (ground arith)
        | inr (staker, known) ↦ elim (Result-cases (slash c reporter amount staker s)) [
          | inr (x, failed) ↦ absurd (ground arith)
          | inl ((s1, info), e1) ↦
              let same : s'.staking ≡ put reporter info s1.staking = ground arith in
              rw same (
                put-Totals reporter s.staking s1.staking staker info t known (
                  slash-Replaces reporter amount staker info s s1
                    (t.no_stake_no_debt reporter staker known) e1))
        ]
      ]
