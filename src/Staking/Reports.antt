-- ===== src/Staking/Reports.antt =====
-- What the staking controller contract reports: the dispatchables 13 to 16 of src/lib.rs.
pub mod Replaces
pub mod Totals
pub mod Withdrawn
pub mod Slash
use tellor_pallet.Base.{
  ℕ, ◌+◌, ◌-◌, ◌*◌, Bool, Option, none, some, if◌then◌else◌, leb, ltb, ◌==◌, List, ◌∷◌, lookup,
  insert, unwrap_or,
}
use tellor_pallet.Base.Machine.{checked, checked_sub, u256_max}
use tellor_pallet.Types.{
  Result, ok, ◌>>=◌, ◌>>◌, no_overflow, no_underflow, no_panic, ensure, require, ensure_origin,
  Origin, StakeInfo, new_stake_info, Event, new_staker_reported, stake_withdraw_request_reported,
  stake_withdrawn_reported, slash_reported, invalid_address, insufficient_stake,
  no_withdrawal_requested, withdrawal_period_pending,
}
use tellor_pallet.Config.{Config}
use tellor_pallet.Constants.{days}
use tellor_pallet.State.{Staking, Governance, Pallet, deposit_event}
use tellor_pallet.Staking.Stakes.{update_stake_and_pay_rewards}

module _ {W : Type 0} (c : Config W) where
  -- The write at the end of `StakerDetails::try_mutate`.
  abbrev pub put_staker : ℕ → StakeInfo → Pallet W → Pallet W
  put_staker reporter info s = record s {
    staking = record s.staking { staker_details = insert reporter info s.staking.staker_details };
  }

  abbrev pub put_to_withdraw : ℕ → Pallet W → Pallet W
  put_to_withdraw locked s = record s { staking = record s.staking { to_withdraw = locked } }

  -- A deposit uses up the locked balance first; a staker with neither balance starts to be counted
  -- for voting from now on.
  unfoldable pub use_locked : ℕ → ℕ → StakeInfo → Pallet W → Result (Pallet W × StakeInfo)
  use_locked reporter amount staker s =
      if ltb 0 staker.locked_balance
      then (if leb amount staker.locked_balance
          then (do
            locked_balance ← no_underflow (checked_sub staker.locked_balance amount)
            locked ← no_underflow (checked_sub s.staking.to_withdraw amount)
            ok (put_to_withdraw locked s, record staker { locked_balance = locked_balance }))
          else (do
            locked ← no_underflow (checked_sub s.staking.to_withdraw staker.locked_balance)
            ok (put_to_withdraw locked s, record staker { locked_balance = 0 })))
      else if staker.staked_balance == 0
      then ok (
        s,
        record staker {
          start_vote_count = s.governance.vote_count;
          start_vote_tally = s.governance.vote_tally_by_address reporter;
        },
      )
      else ok (s, staker)

  unfoldable pub report_stake_deposited : Origin → ℕ → ℕ → ℕ → Pallet W → Result (Pallet W)
  report_stake_deposited origin reporter amount address s = do
    ensure_origin (c.staking_origin origin)
    let staker = unwrap_or (lookup reporter s.staking.staker_details) (new_stake_info address)
    ensure (address == staker.address) invalid_address
    (s1, staker1) ← use_locked reporter amount staker s
    new_staked_balance ← no_panic (checked u256_max (staker.staked_balance + amount))
    (s2, staker2) ← update_stake_and_pay_rewards c reporter staker1 new_staked_balance s1
    ok (
        deposit_event (new_staker_reported reporter amount address)
          (put_staker reporter (record staker2 { start_date = s.now }) s2))

  unfoldable pub report_staking_withdraw_request : Origin → ℕ → ℕ → ℕ → Pallet W → Result (Pallet W)
  report_staking_withdraw_request origin reporter amount address s = do
    ensure_origin (c.staking_origin origin)
    staker ← require (lookup reporter s.staking.staker_details) insufficient_stake
    ensure (address == staker.address) invalid_address
    ensure (leb amount staker.staked_balance) insufficient_stake
    stake_amount ← no_underflow (checked_sub staker.staked_balance amount)
    (s1, staker1) ← update_stake_and_pay_rewards c reporter staker stake_amount s
    locked_balance ← no_overflow (checked u256_max (staker1.locked_balance + amount))
    locked ← no_overflow (checked u256_max (s1.staking.to_withdraw + amount))
    ok (
        deposit_event (stake_withdraw_request_reported reporter amount address) (
          put_staker reporter
            (record staker1 { start_date = s.now; locked_balance = locked_balance })
            (put_to_withdraw locked s1)))

  unfoldable pub report_stake_withdrawn : Origin → ℕ → ℕ → Pallet W → Result (Pallet W)
  report_stake_withdrawn origin reporter amount s = do
    ensure_origin (c.staking_origin origin)
    staker ← require (lookup reporter s.staking.staker_details) insufficient_stake
    ensure (ltb 0 staker.locked_balance) no_withdrawal_requested
    elapsed ← no_underflow (checked_sub s.now staker.start_date)
    ensure (leb (7 * days) elapsed) withdrawal_period_pending
    locked ← no_underflow (checked_sub s.staking.to_withdraw staker.locked_balance)
    locked_balance ← no_underflow (checked_sub staker.locked_balance amount)
    ok (
        deposit_event (stake_withdrawn_reported reporter) (
          put_staker reporter (record staker { locked_balance = locked_balance })
            (put_to_withdraw locked s)))

  -- The three cases of a slash: the locked balance covers it; both balances do; neither does.
  unfoldable pub slash : ℕ → ℕ → StakeInfo → Pallet W → Result (Pallet W × StakeInfo)
  slash reporter amount staker s =
      if leb amount staker.locked_balance
      then (do
        locked_balance ← no_underflow (checked_sub staker.locked_balance amount)
        locked ← no_underflow (checked_sub s.staking.to_withdraw amount)
        ok (put_to_withdraw locked s, record staker { locked_balance = locked_balance }))
      else (do
        sum ← no_overflow (checked u256_max (staker.locked_balance + staker.staked_balance))
        if leb amount sum
            then (do
              remainder ← no_underflow (checked_sub amount staker.locked_balance)
              new_staked_balance ← no_underflow (checked_sub staker.staked_balance remainder)
              (s1, staker1) ← update_stake_and_pay_rewards c reporter staker new_staked_balance s
              locked ← no_underflow (checked_sub s1.staking.to_withdraw staker.locked_balance)
              ok (put_to_withdraw locked s1, record staker1 { locked_balance = 0 }))
            else (do
              locked ← no_underflow (checked_sub s.staking.to_withdraw staker.locked_balance)
              (s1, staker1) ←
                  update_stake_and_pay_rewards c reporter staker 0 (put_to_withdraw locked s)
              ok (s1, record staker1 { locked_balance = 0 })))

  unfoldable pub report_slash : Origin → ℕ → ℕ → Pallet W → Result (Pallet W)
  report_slash origin reporter amount s = do
    ensure_origin (c.staking_origin origin)
    staker ← require (lookup reporter s.staking.staker_details) insufficient_stake
    balances ← no_overflow (checked u256_max (staker.staked_balance + staker.locked_balance))
    ensure (ltb 0 balances) insufficient_stake
    (s1, staker1) ← slash reporter amount staker s
    ok (deposit_event (slash_reported reporter amount) (put_staker reporter staker1 s1))
