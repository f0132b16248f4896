-- ===== src/Tests/Stakes.antt =====
-- Runs of the staking reports.
use tellor_pallet.Base.{arith, ℕ, ◌+◌, ◌*◌, ◌^◌, ◌≡◌, refl, true, some, unwrap_or, lookup}
use tellor_pallet.Types.{Result, is_ok, ok_value, Origin, StakeInfo, new_stake_info}
use tellor_pallet.State.{Pallet}
use tellor_pallet.Staking.Totals.{Totals}
use tellor_pallet.Staking.Reports.{
  report_stake_deposited, report_staking_withdraw_request, report_stake_withdrawn, report_slash,
  slash, use_locked,
}
use tellor_pallet.Staking.Stakes.{
  update_stake_and_pay_rewards, participation, count_staker, pending_reward_of, pay_pending,
  refresh_rate, enter_stake,
}
use tellor_pallet.Staking.Rewards.{owed_rewards, exhaust_rewards, allocate_rewards, update_rewards}
use tellor_pallet.Staking.Amounts.{convert, convert_to_decimals, unit}
use tellor_pallet.Staking.Reports.Totals.{
  report_stake_deposited-Totals, report_staking_withdraw_request-Totals,
}
use tellor_pallet.Staking.Reports.Slash.{report_slash-Totals}
use tellor_pallet.Staking.Reports.Withdrawn.{
  report_stake_withdrawn-Totals, report_stake_withdrawn-amounts,
}
use tellor_pallet.Staking.History.{
  IsStaking, Step, History, begin, then_, deposited, waited, History-IsStaking,
}
use tellor_pallet.Tests.{runtime, genesis, after, at}

abbrev pub tokens : ℕ → ℕ
tokens n = n * 10 ^ 18

abbrev deposit : Result (Pallet ℕ)
deposit = report_stake_deposited runtime Origin.staking 7 (tokens 200) 1 genesis

abbrev pub staked : Pallet ℕ
staked = ok_value deposit genesis

unfoldable evaluate : ℕ
unfolding report_stake_deposited report_staking_withdraw_request report_stake_withdrawn report_slash
    slash use_locked update_stake_and_pay_rewards participation count_staker pending_reward_of
    pay_pending refresh_rate enter_stake owed_rewards exhaust_rewards allocate_rewards
    update_rewards convert convert_to_decimals unit
evaluate = 0

deposits : is_ok deposit ≡ true
unfolding evaluate
deposits = refl

genesis-Totals : Totals genesis.staking
genesis-Totals = record {
  stakes = refl;
  debts = refl;
  withdrawals = refl;
  no_stake_no_debt = λ k i e z. absurd (cc);
}

report_stake_deposited-Totals_example : Totals staked.staking
report_stake_deposited-Totals_example =
    report_stake_deposited-Totals runtime Origin.staking 7 (tokens 200) 1 genesis staked
      genesis-Totals (after deposit genesis deposits)

staked-Totals : Totals staked.staking
staked-Totals =
    report_stake_deposited-Totals runtime Origin.staking 7 (tokens 200) 1 genesis staked
      genesis-Totals (after deposit genesis deposits)

abbrev request : Result (Pallet ℕ)
request =
    report_staking_withdraw_request runtime Origin.staking 7 (tokens 50) 1 (at 1_100_000 staked)

abbrev requested : Pallet ℕ
requested = ok_value request staked

requests : is_ok request ≡ true
unfolding evaluate
requests = refl

report_staking_withdraw_request-Totals_example : Totals requested.staking
report_staking_withdraw_request-Totals_example =
    report_staking_withdraw_request-Totals runtime Origin.staking 7 (tokens 50) 1
      (at 1_100_000 staked) requested staked-Totals (after request staked requests)

requested-Totals : Totals requested.staking
requested-Totals =
    report_staking_withdraw_request-Totals runtime Origin.staking 7 (tokens 50) 1
      (at 1_100_000 staked) requested staked-Totals (after request staked requests)

-- A slash of more than the locked balance.
abbrev slashing : Result (Pallet ℕ)
slashing = report_slash runtime Origin.staking 7 (tokens 60) (at 1_200_000 requested)

slashes : is_ok slashing ≡ true
unfolding evaluate
slashes = refl

report_slash-Totals_example : Totals (ok_value slashing genesis).staking
report_slash-Totals_example =
    report_slash-Totals runtime Origin.staking 7 (tokens 60) (at 1_200_000 requested)
      (ok_value slashing genesis) requested-Totals (after slashing genesis slashes)

-- A withdrawal of less than the locked balance.
abbrev withdrawal : Result (Pallet ℕ)
withdrawal = report_stake_withdrawn runtime Origin.staking 7 (tokens 20) (at 2_000_000 requested)

withdraws : is_ok withdrawal ≡ true
unfolding evaluate
withdraws = refl

abbrev withdrawn : Pallet ℕ
withdrawn = ok_value withdrawal genesis

abbrev staker : StakeInfo
staker = unwrap_or (lookup 7 requested.staking.staker_details) (new_stake_info 0)

knows : lookup 7 requested.staking.staker_details ≡ some staker
unfolding evaluate
knows = refl

locks : staker.locked_balance ≡ tokens 50
unfolding evaluate
locks = refl

report_stake_withdrawn-Totals_example :
    (tokens 20 ≡ staker.locked_balance → Totals withdrawn.staking)
    × (Totals withdrawn.staking → tokens 20 ≡ staker.locked_balance)
report_stake_withdrawn-Totals_example =
    report_stake_withdrawn-Totals runtime Origin.staking 7 (tokens 20) staker
      (at 2_000_000 requested) withdrawn requested-Totals knows (after withdrawal genesis withdraws)

report_stake_withdrawn-amounts_example :
    (withdrawn.staking.to_withdraw + staker.locked_balance ≡ requested.staking.to_withdraw)
    × ((info : StakeInfo) × (lookup 7 withdrawn.staking.staker_details ≡ some info)
        × (info.locked_balance + tokens 20 ≡ staker.locked_balance))
report_stake_withdrawn-amounts_example =
    report_stake_withdrawn-amounts runtime Origin.staking 7 (tokens 20) staker
      (at 2_000_000 requested) withdrawn knows (after withdrawal genesis withdraws)

one_staker : staked.staking.total_stakers ≡ 1
unfolding evaluate
one_staker = refl

-- A deposit, and a request after a while.
abbrev history : History runtime genesis requested
history =
    then_
      (then_
        (then_ begin (omega arith)
          (deposited Origin.staking 7 (tokens 200) 1 (after deposit genesis deposits)))
        (omega (arith, one_staker)) (waited 1_100_000 staked.block_number))
      (omega (arith, one_staker))
      (Step.requested Origin.staking 7 (tokens 50) 1 (after request staked requests))

History-IsStaking_example : IsStaking requested.staking
History-IsStaking_example =
    History-IsStaking runtime genesis requested (record { totals = genesis-Totals; counted = refl })
      history
