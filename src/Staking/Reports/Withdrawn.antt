-- ===== src/Staking/Reports/Withdrawn.antt =====
-- Withdrawals and the totals: `report_stake_withdrawn` of src/lib.rs.
use tellor_pallet.Base.{
  ℕ, ◌+◌, ◌-◌, ◌≤◌, ◌≡◌, refl, some, arith, lookup, total-insert, lookup-insert_self,
}
use tellor_pallet.Types.{ok, StakeInfo, Origin}
use tellor_pallet.Config.{Config}
use tellor_pallet.State.{Staking, Pallet}
use tellor_pallet.Staking.Totals.{Totals}
use tellor_pallet.Staking.Reports.{report_stake_withdrawn}
use tellor_pallet.Staking.Reports.Replaces.{put, put-Totals}

module _ {W : Type 0} (c : Config W) where
  -- A withdrawal that is accepted takes the whole locked balance off the amount to withdraw, but
  -- only the reported amount off the locked balance of the staker.
  pub report_stake_withdrawn-amounts :
      (origin : Origin) (reporter amount : ℕ) (staker : StakeInfo) (s s' : Pallet W)
      → lookup reporter s.staking.staker_details ≡ some staker
      → report_stake_withdrawn c origin reporter amount s ≡ ok s'
      → (s'.staking.to_withdraw + staker.locked_balance ≡ s.staking.to_withdraw)
        × ((info : StakeInfo) × (lookup reporter s'.staking.staker_details ≡ some info)
            × (info.locked_balance + amount ≡ staker.locked_balance))
  unfolding report_stake_withdrawn
  report_stake_withdrawn-amounts origin reporter amount staker s s' known e =
      let same : s'.staking
          ≡ put reporter (record staker { locked_balance = staker.locked_balance - amount })
              (record s.staking { to_withdraw = s.staking.to_withdraw - staker.locked_balance }) =
        ground arith in
      let enough : amount ≤ staker.locked_balance = ground arith in
      let covered : staker.locked_balance ≤ s.staking.to_withdraw = ground arith in
      rw same (
        omega arith,
        (
          record staker { locked_balance = staker.locked_balance - amount },
          lookup-insert_self reporter _ s.staking.staker_details,
          omega arith,
        ),
      )

  -- Where the totals hold, a withdrawal that is accepted keeps them exactly if the amount is the
  -- whole locked balance.
  pub report_stake_withdrawn-Totals :
      (origin : Origin) (reporter amount : ℕ) (staker : StakeInfo) (s s' : Pallet W)
      → Totals s.staking
      → lookup reporter s.staking.staker_details ≡ some staker
      → report_stake_withdrawn c origin reporter amount s ≡ ok s'
      → (amount ≡ staker.locked_balance → Totals s'.staking)
        × (Totals s'.staking → amount ≡ staker.locked_balance)
  unfolding report_stake_withdrawn
  report_stake_withdrawn-Totals origin reporter amount staker s s' t known e =
      let new : StakeInfo = record staker { locked_balance = staker.locked_balance - amount } in
      let st : Staking = record s.staking {
        to_withdraw = s.staking.to_withdraw - staker.locked_balance;
      } in
      let same : s'.staking ≡ put reporter new st = ground arith in
      let enough : amount ≤ staker.locked_balance = ground arith in
      let covered : staker.locked_balance ≤ s.staking.to_withdraw = ground arith in
      let sum =
        total-insert (λ i. i.locked_balance) reporter new staker s.staking.staker_details known in
      rw same (
        (λ whole. put-Totals reporter s.staking st staker new t known (record {
          details = refl;
          stakes = refl;
          debts = refl;
          withdrawals = omega arith;
          no_debt = t.no_stake_no_debt reporter staker known;
        })),
        (λ after. omega (arith, sum, t.withdrawals, after.withdrawals, enough, covered)),
      )
