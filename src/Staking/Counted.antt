-- ===== src/Staking/Counted.antt =====
-- The count of stakers: `update_stake_and_pay_rewards` of src/impls.rs keeps it the number of those
-- whose stake reached the stake amount when it last changed.
pub mod Reports
use tellor_pallet.Base.{
  ℕ, ◌+◌, ◌-◌, ◌≤◌, ◌<◌, ◌≡◌, refl, sym, ap, ◌∙◌, Option, none, some, List, [], ◌∷◌, arith,
  if◌then◌else◌, lookup, insert, total, total-insert, total-insert_new, inl, inr, Assoc,
  Option-cases, unwrap_or,
}
use tellor_pallet.Base.Machine.{u64_max}
use tellor_pallet.Types.{ok, StakeInfo, new_stake_info, Result-cases}
use tellor_pallet.Config.{Config}
use tellor_pallet.State.{Staking, Pallet}
use tellor_pallet.Staking.Amounts.{unit}
use tellor_pallet.Staking.Rewards.{update_rewards}
use tellor_pallet.Staking.Stakes.{
  pay_pending, enter_stake, refresh_rate, count_staker, update_stake_and_pay_rewards,
}
use tellor_pallet.Staking.Totals.{update-SameStakes, refresh_rate-SameStakes}
use tellor_pallet.Staking.Reports.Replaces.{put}

-- One for a staker that counts.
abbrev pub flag : StakeInfo → ℕ
flag i = if i.staked then 1 else 0

abbrev pub Counted : Staking → Type 0
Counted st = st.total_stakers ≡ total flag st.staker_details

-- The new entry of a staker replaces the old one in the count.
pub record Recounts (st st' : Staking) (old new : StakeInfo) : Type 0 where
  pub details : st'.staker_details ≡ st.staker_details
  pub count : st'.total_stakers + flag old ≡ st.total_stakers + flag new

flag-total :
    (k : ℕ) (i : StakeInfo) (m : Assoc StakeInfo) → lookup k m ≡ some i → flag i ≤ total flag m
flag-total k i [] e = absurd (cc)
flag-total k i (x ∷ m) e = ground (arith, flag-total k i m)

-- A staker that counts is among those counted.
pub flag-Counted :
    (k address : ℕ) (st : Staking)
    → Counted st
    → flag (unwrap_or (lookup k st.staker_details) (new_stake_info address)) ≤ st.total_stakers
flag-Counted k address st n = elim (Option-cases (lookup k st.staker_details)) [
  | inl unknown ↦ rw unknown (omega arith)
  | inr (old, known) ↦ rw known (omega (arith, n, flag-total k old st.staker_details known))
]

-- The whole report, for a staker that is known or new.
pub put-Counted :
    (k address : ℕ) (st st' : Staking) (new : StakeInfo)
    → Counted st
    → Recounts st st' (unwrap_or (lookup k st.staker_details) (new_stake_info address)) new
    → Counted (put k new st')
put-Counted k address st st' new n x =
    let same = ap (total flag) x.details in
    elim (Option-cases (lookup k st.staker_details)) [
      | inl unknown ↦
          let y : Recounts st st' (new_stake_info address) new = rw unknown at x in
          omega (
            arith,
            same,
            n,
            y.count,
            total-insert_new flag k new st'.staker_details (rw x.details unknown),
          )
      | inr (old, known) ↦
          let y : Recounts st st' old new = rw known at x in
          omega (
            arith,
            same,
            n,
            y.count,
            total-insert flag k new old st'.staker_details (rw x.details known),
          )
    ]

module _ {W : Type 0} (c : Config W) where
  pay_pending-same :
      (staker one : ℕ) (info : StakeInfo) (s s' : Pallet W)
      → pay_pending c staker one info s ≡ ok s'
      → (s'.staking.total_stakers ≡ s.staking.total_stakers)
        × (s'.staking.staker_details ≡ s.staking.staker_details)
  unfolding pay_pending
  pay_pending-same staker one info s s' e = ground arith

  enter_stake-Recounts :
      (balance b one : ℕ) (info info' : StakeInfo) (st st' : Staking)
      → flag info ≤ st.total_stakers
      → st.total_stakers < u64_max
      → enter_stake c balance b one info st ≡ ok (st', info')
      → Recounts st st' info info'
  unfolding enter_stake count_staker
  enter_stake-Recounts balance b one info info' st st' some_ room e = record {
    details = grind (arith, refresh_rate-SameStakes);
    count = grind (arith, refresh_rate-SameStakes);
  }

  -- The call as a whole.
  pub update_stake-Recounts :
      (staker balance : ℕ) (info info' : StakeInfo) (s s' : Pallet W)
      → flag info ≤ s.staking.total_stakers
      → s.staking.total_stakers < u64_max
      → update_stake_and_pay_rewards c staker info balance s ≡ ok (s', info')
      → Recounts s.staking s'.staking info info'
  unfolding update_stake_and_pay_rewards
  update_stake-Recounts staker balance info info' s s' some_ room e =
      elim (Result-cases (update_rewards c s.now (c.balance s.world c.staking_rewards) s.staking)) [
        | inr (x, failed) ↦ absurd (ground arith)
        | inl (st, updated) ↦ elim (Result-cases (unit c)) [
          | inr (x, failed) ↦ absurd (ground arith)
          | inl (one, eone) ↦
              elim (Result-cases (pay_pending c staker one info (record s { staking = st }))) [
                | inr (x, failed) ↦ absurd (ground arith)
                | inl (s1, paid) ↦
                    elim (Result-cases (
                      enter_stake c balance (c.balance s1.world c.staking_rewards) one info
                        s1.staking)) [
                          | inr (x, failed) ↦ absurd (ground arith)
                          | inl ((st', info1), entered) ↦
                              let first =
                                update-SameStakes c s.now (c.balance s.world c.staking_rewards)
                                  s.staking st updated in
                              let (count, details) =
                                pay_pending-same staker one info (record s { staking = st }) s1
                                  paid in
                              let last : Recounts s1.staking st' info info1 =
                                enter_stake-Recounts balance (c.balance s1.world c.staking_rewards)
                                  one info info1 s1.staking st'
                                  (omega (arith, count, first.stakers))
                                  (omega (arith, count, first.stakers)) entered in
                              let same : s'.staking ≡ st' = ground arith in
                              let same_info : info' ≡ info1 = ground arith in
                              rw (same, same_info)
                                (record {
                                  details = last.details ∙ details ∙ first.details;
                                  count = omega (arith, last.count, count, first.stakers);
                                })
                        ]
              ]
        ]
      ]
