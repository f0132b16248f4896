-- ===== src/Staking/History.antt =====
-- Histories of the staking storage: what holds through any sequence of reports of the staking
-- contract, submissions and added rewards (src/lib.rs).
use tellor_pallet.Base.{
  ℕ, ◌<◌, ◌≡◌, refl, sym, ap, ◌∙◌, some, arith, lookup, total, inl, inr, Option-cases,
}
use tellor_pallet.Base.Machine.{u32_max, u64_max, saturating_inc}
use tellor_pallet.Types.{Bytes, ok, StakeInfo, Result-cases, Origin, ensure_signed}
use tellor_pallet.Config.{Config}
use tellor_pallet.State.{Staking, Pallet}
use tellor_pallet.Oracle.Submit.{submit_value}
use tellor_pallet.Staking.Stakes.{add_staking_rewards, do_add_staking_rewards}
use tellor_pallet.Staking.Totals.{Totals, SameStakes, update-SameStakes}
use tellor_pallet.Staking.Counted.{flag, Counted}
use tellor_pallet.Staking.Reports.{
  report_stake_deposited, report_staking_withdraw_request, report_stake_withdrawn, report_slash,
}
use tellor_pallet.Staking.Reports.Replaces.{put, put-Totals}
use tellor_pallet.Staking.Reports.Totals.{
  report_stake_deposited-Totals, report_staking_withdraw_request-Totals,
}
use tellor_pallet.Staking.Reports.Slash.{report_slash-Totals}
use tellor_pallet.Staking.Reports.Withdrawn.{report_stake_withdrawn-Totals}
use tellor_pallet.Staking.Counted.Reports.{
  report_stake_deposited-Counted, report_staking_withdraw_request-Counted,
  report_stake_withdrawn-Counted, report_slash-Counted, known-Counted,
}

-- Both invariants: the totals are sums over the stakers, and so is the count.
pub record IsStaking (st : Staking) : Type 0 where
  pub totals : Totals st
  pub counted : Counted st

module _ {W : Type 0} (c : Config W) where
  -- One call that is accepted, or the passing of time. A withdrawal is of the whole locked balance.
  pub data Step : Pallet W → Pallet W → Type 0 where
    deposited :
        {s s' : Pallet W} (origin : Origin) (reporter amount address : ℕ)
        → report_stake_deposited c origin reporter amount address s ≡ ok s'
        → Step s s'
    requested :
        {s s' : Pallet W} (origin : Origin) (reporter amount address : ℕ)
        → report_staking_withdraw_request c origin reporter amount address s ≡ ok s'
        → Step s s'
    withdrawn :
        {s s' : Pallet W} (origin : Origin) (reporter : ℕ) (staker : StakeInfo)
        → lookup reporter s.staking.staker_details ≡ some staker
        → report_stake_withdrawn c origin reporter staker.locked_balance s ≡ ok s'
        → Step s s'
    slashed :
        {s s' : Pallet W} (origin : Origin) (reporter amount : ℕ)
        → report_slash c origin reporter amount s ≡ ok s'
        → Step s s'
    submitted :
        {s s' : Pallet W} (origin : Origin) (query_id nonce : ℕ) (value query_data : Bytes)
        → submit_value c origin query_id value nonce query_data s ≡ ok s'
        → Step s s'
    rewarded :
        {s s' : Pallet W} (origin : Origin) (amount : ℕ)
        → add_staking_rewards c origin amount s ≡ ok s'
        → Step s s'
    waited :
        {s : Pallet W} (now block_number : ℕ)
        → Step s (record s { now = now; block_number = block_number })

  -- A sequence of such steps, through states in which the count of stakers is not at its limit.
  pub data History (s : Pallet W) : Pallet W → Type 0 where
    begin : History s s
    then_ :
        {z z' : Pallet W}
        → History s z
        → z.staking.total_stakers < u64_max
        → Step z z'
        → History s z'

  submit-IsStaking :
      (origin : Origin) (query_id nonce : ℕ) (value query_data : Bytes) (s s' : Pallet W)
      → IsStaking s.staking
      → submit_value c origin query_id value nonce query_data s ≡ ok s'
      → IsStaking s'.staking
  unfolding submit_value
  submit-IsStaking origin query_id nonce value query_data s s' v e =
      elim (Result-cases (ensure_signed origin)) [
        | inr (x, failed) ↦ absurd (ground arith)
        | inl (reporter, signer) ↦ elim (Option-cases (lookup reporter s.staking.staker_details)) [
          | inl unknown ↦ absurd (ground arith)
          | inr (staker, known) ↦
              let staker' : StakeInfo = record staker {
                reporter_last_timestamp = s.now;
                reports_submitted = saturating_inc u32_max staker.reports_submitted;
              } in
              let same : s'.staking ≡ put reporter staker' s.staking = ground arith in
              rw same (record {
                totals =
                    put-Totals reporter s.staking s.staking staker staker' v.totals known (record {
                      details = refl;
                      stakes = refl;
                      debts = refl;
                      withdrawals = refl;
                      no_debt = v.totals.no_stake_no_debt reporter staker known;
                    });
                counted =
                    known-Counted c reporter s.staking s.staking staker staker' known v.counted
                      (record { details = refl; count = refl });
              })
        ]
      ]

  same-IsStaking : (st st' : Staking) → SameStakes st st' → IsStaking st → IsStaking st'
  same-IsStaking st st' x v = record {
    totals = record {
      stakes = x.stakes ∙ v.totals.stakes ∙ ap (total (λ i. i.staked_balance)) (sym x.details);
      debts = x.debts ∙ v.totals.debts ∙ ap (total (λ i. i.reward_debt)) (sym x.details);
      withdrawals =
          x.withdrawals ∙ v.totals.withdrawals ∙ ap (total (λ i. i.locked_balance)) (sym x.details);
      no_stake_no_debt =
          λ k i e z. v.totals.no_stake_no_debt k i (ap (lookup k) (sym x.details) ∙ e) z;
    };
    counted = x.stakers ∙ v.counted ∙ ap (total flag) (sym x.details);
  }

  rewards-SameStakes :
      (origin : Origin) (amount : ℕ) (s s' : Pallet W)
      → add_staking_rewards c origin amount s ≡ ok s'
      → SameStakes s.staking s'.staking
  unfolding add_staking_rewards do_add_staking_rewards
  rewards-SameStakes origin amount s s' e = grind (arith, update-SameStakes)

  Step-IsStaking :
      (s s' : Pallet W)
      → IsStaking s.staking
      → s.staking.total_stakers < u64_max
      → Step s s'
      → IsStaking s'.staking
  Step-IsStaking s s' v room (deposited origin reporter amount address e) = record {
    totals = report_stake_deposited-Totals c origin reporter amount address s s' v.totals e;
    counted = report_stake_deposited-Counted c origin reporter amount address s s' v.counted room e;
  }
  Step-IsStaking s s' v room (requested origin reporter amount address e) = record {
    totals =
        report_staking_withdraw_request-Totals c origin reporter amount address s s' v.totals e;
    counted =
        report_staking_withdraw_request-Counted c origin reporter amount address s s' v.counted room
          e;
  }
  Step-IsStaking s s' v room (withdrawn origin reporter staker known e) = record {
    totals =
        (report_stake_withdrawn-Totals c origin reporter staker.locked_balance staker s s' v.totals
            known e).0
          refl;
    counted =
        report_stake_withdrawn-Counted c origin reporter staker.locked_balance s s' v.counted e;
  }
  Step-IsStaking s s' v room (slashed origin reporter amount e) = record {
    totals = report_slash-Totals c origin reporter amount s s' v.totals e;
    counted = report_slash-Counted c origin reporter amount s s' v.counted room e;
  }
  Step-IsStaking s s' v room (submitted origin query_id nonce value query_data e) =
      submit-IsStaking origin query_id nonce value query_data s s' v e
  Step-IsStaking s s' v room (rewarded origin amount e) =
      same-IsStaking s.staking s'.staking (rewards-SameStakes origin amount s s' e) v
  Step-IsStaking s s' v room (waited now block_number) = v

  -- The staking storage is well-formed, that is, the total stake, the total reward debt and the
  -- amount to withdraw are the sums over all stakers, a staker without a stake has no reward debt,
  -- and the count of stakers is the number of those marked as staked; this stays so through any
  -- sequence of accepted deposits, withdrawal requests, withdrawals of a whole locked balance,
  -- slashes, submissions and added rewards, at any times, as long as the count is below 2^64 - 1
  -- before each.
  pub History-IsStaking : (s z : Pallet W) → IsStaking s.staking → History s z → IsStaking z.staking
  History-IsStaking s z v begin = v
  History-IsStaking s z v (then_ h room step) =
      Step-IsStaking _ z (History-IsStaking s _ v h) room step
