-- ===== src/Staking/Counted/Reports.antt =====
-- The reports of the staking contract keep the count of stakers: src/lib.rs.
use tellor_pallet.Base.{
  ℕ, ◌+◌, ◌-◌, ◌≤◌, ◌<◌, ◌≡◌, refl, ◌∙◌, some, arith, leb, lookup, inl, inr, Bool-cases,
  Option-cases, unwrap_or,
}
use tellor_pallet.Base.Machine.{u64_max}
use tellor_pallet.Types.{ok, StakeInfo, new_stake_info, Result-cases, Origin}
use tellor_pallet.Config.{Config}
use tellor_pallet.State.{Staking, Pallet}
use tellor_pallet.Staking.Stakes.{update_stake_and_pay_rewards}
use tellor_pallet.Staking.Reports.{
  use_locked, report_stake_deposited, report_staking_withdraw_request, report_stake_withdrawn,
  slash, report_slash, put_to_withdraw,
}
use tellor_pallet.Staking.Reports.Replaces.{put}
use tellor_pallet.Staking.Counted.{
  flag, Counted, Recounts, flag-Counted, put-Counted, update_stake-Recounts,
}

module _ {W : Type 0} (c : Config W) where
  -- A staker that is known is put back.
  pub known-Counted :
      (k : ℕ) (st st' : Staking) (old new : StakeInfo)
      → lookup k st.staker_details ≡ some old
      → Counted st
      → Recounts st st' old new
      → Counted (put k new st')
  known-Counted k st st' old new known n x = put-Counted k 0 st st' new n (rw known x)

  known-flag :
      (k : ℕ) (st : Staking) (old : StakeInfo)
      → lookup k st.staker_details ≡ some old
      → Counted st
      → flag old ≤ st.total_stakers
  known-flag k st old known n = let x = flag-Counted k 0 st n in rw known at x

  use_locked-same :
      (reporter amount : ℕ) (staker info : StakeInfo) (s s' : Pallet W)
      → use_locked c reporter amount staker s ≡ ok (s', info)
      → (s'.staking.staker_details ≡ s.staking.staker_details)
        × (s'.staking.total_stakers ≡ s.staking.total_stakers)
        × (flag info ≡ flag staker)
  unfolding use_locked
  use_locked-same reporter amount staker info s s' e = ground arith

  pub report_stake_deposited-Counted :
      (origin : Origin) (reporter amount address : ℕ) (s s' : Pallet W)
      → Counted s.staking
      → s.staking.total_stakers < u64_max
      → report_stake_deposited c origin reporter amount address s ≡ ok s'
      → Counted s'.staking
  unfolding report_stake_deposited
  report_stake_deposited-Counted origin reporter amount address s s' n room e =
      let staker = unwrap_or (lookup reporter s.staking.staker_details) (new_stake_info address) in
      elim (Result-cases (use_locked c reporter amount staker s)) [
        | inr (x, failed) ↦ absurd (ground arith)
        | inl ((s1, info1), e1) ↦
            elim (Result-cases
              (update_stake_and_pay_rewards c reporter info1 (staker.staked_balance + amount) s1)) [
                | inr (x, failed) ↦ absurd (ground arith)
                | inl ((s2, info2), e2) ↦
                    let same : s'.staking
                        ≡ put reporter (record info2 { start_date = s.now }) s2.staking =
                      ground arith in
                    let (details, count, flags) =
                      use_locked-same reporter amount staker info1 s s1 e1 in
                    let some_ = flag-Counted reporter address s.staking n in
                    let x =
                      update_stake-Recounts c reporter (staker.staked_balance + amount) info1 info2
                        s1 s2 (omega (arith, some_, flags, count)) (omega (arith, room, count))
                        e2 in
                    rw same (
                      put-Counted reporter address s.staking s2.staking _ n (record {
                        details = x.details ∙ details;
                        count = omega (arith, x.count, count, flags);
                      }))
              ]
      ]

  pub report_staking_withdraw_request-Counted :
      (origin : Origin) (reporter amount address : ℕ) (s s' : Pallet W)
      → Counted s.staking
      → s.staking.total_stakers < u64_max
      → report_staking_withdraw_request c origin reporter amount address s ≡ ok s'
      → Counted s'.staking
  unfolding report_staking_withdraw_request
  report_staking_withdraw_request-Counted origin reporter amount address s s' n room e =
      elim (Option-cases (lookup reporter s.staking.staker_details)) [
        | inl unknown ↦ absurd (ground arith)
        | inr (staker, known) ↦
            elim (Result-cases
              (update_stake_and_pay_rewards c reporter staker (staker.staked_balance - amount) s)) [
                | inr (x, failed) ↦ absurd (ground arith)
                | inl ((s1, info), e1) ↦
                    let same : s'.staking
                        ≡ put reporter
                            (record info {
                              start_date = s.now;
                              locked_balance = info.locked_balance + amount;
                            })
                            (record s1.staking { to_withdraw = s1.staking.to_withdraw + amount }) =
                      ground arith in
                    let x =
                      update_stake-Recounts c reporter (staker.staked_balance - amount) staker info
                        s s1 (known-flag reporter s.staking staker known n) room e1 in
                    rw same (
                      known-Counted reporter s.staking
                        (record s1.staking { to_withdraw = s1.staking.to_withdraw + amount }) staker
                        _ known n (record { details = x.details; count = x.count }))
              ]
      ]

  pub report_stake_withdrawn-Counted :
      (origin : Origin) (reporter amount : ℕ) (s s' : Pallet W)
      → Counted s.staking
      → report_stake_withdrawn c origin reporter amount s ≡ ok s'
      → Counted s'.staking
  unfolding report_stake_withdrawn
  report_stake_withdrawn-Counted origin reporter amount s s' n e =
      elim (Option-cases (lookup reporter s.staking.staker_details)) [
        | inl unknown ↦ absurd (ground arith)
        | inr (staker, known) ↦
            let same : s'.staking
                ≡ put reporter (record staker { locked_balance = staker.locked_balance - amount })
                    (record s.staking {
                      to_withdraw = s.staking.to_withdraw - staker.locked_balance;
                    }) =
              ground arith in
            rw same (
              known-Counted reporter s.staking
                (record s.staking { to_withdraw = s.staking.to_withdraw - staker.locked_balance })
                staker _ known n (record { details = refl; count = refl }))
      ]

  slash-Recounts :
      (reporter amount : ℕ) (staker info : StakeInfo) (s s1 : Pallet W)
      → flag staker ≤ s.staking.total_stakers
      → s.staking.total_stakers < u64_max
      → slash c reporter amount staker s ≡ ok (s1, info)
      → Recounts s.staking s1.staking staker info
  unfolding slash
  slash-Recounts reporter amount staker info s s1 some_ room e =
      elim (Bool-cases (leb amount staker.locked_balance)) [
        | inl covered ↦ record { details = ground arith; count = ground arith }
        | inr over ↦
            elim (Bool-cases (leb amount (staker.locked_balance + staker.staked_balance))) [
              | inl both ↦
                  let balance : ℕ = staker.staked_balance - (amount - staker.locked_balance) in
                  elim (Result-cases (update_stake_and_pay_rewards c reporter staker balance s)) [
                    | inr (x, failed) ↦ absurd (ground arith)
                    | inl ((s2, info2), e1) ↦
                        let x =
                          update_stake-Recounts c reporter balance staker info2 s s2 some_ room
                            e1 in
                        let details : s1.staking.staker_details ≡ s2.staking.staker_details =
                          ground arith in
                        let count : s1.staking.total_stakers ≡ s2.staking.total_stakers =
                          ground arith in
                        let flags : flag info ≡ flag info2 = ground arith in
                        record {
                          details = details ∙ x.details;
                          count = omega (arith, count, flags, x.count);
                        }
                  ]
              | inr neither ↦
                  let s0 = put_to_withdraw c (s.staking.to_withdraw - staker.locked_balance) s in
                  elim (Result-cases (update_stake_and_pay_rewards c reporter staker 0 s0)) [
                    | inr (x, failed) ↦ absurd (ground arith)
                    | inl ((s2, info2), e1) ↦
                        let x =
                          update_stake-Recounts c reporter 0 staker info2 s0 s2 some_ room e1 in
                        let details : s1.staking.staker_details ≡ s2.staking.staker_details =
                          ground arith in
                        let count : s1.staking.total_stakers ≡ s2.staking.total_stakers =
                          ground arith in
                        let flags : flag info ≡ flag info2 = ground arith in
                        record {
                          details = details ∙ x.details;
                          count = omega (arith, count, flags, x.count);
                        }
                  ]
            ]
      ]

  pub report_slash-Counted :
      (origin : Origin) (reporter amount : ℕ) (s s' : Pallet W)
      → Counted s.staking
      → s.staking.total_stakers < u64_max
      → report_slash c origin reporter amount s ≡ ok s'
      → Counted s'.staking
  unfolding report_slash
  report_slash-Counted origin reporter amount s s' n room e =
      elim (Option-cases (lookup reporter s.staking.staker_details)) [
        | inl unknown ↦ absurd (ground arith)
        | inr (staker, known) ↦ elim (Result-cases (slash c reporter amount staker s)) [
          | inr (x, failed) ↦ absurd (ground arith)
          | inl ((s1, info), e1) ↦
              let same : s'.staking ≡ put reporter info s1.staking = ground arith in
              rw same (
                known-Counted reporter s.staking s1.staking staker info known n (
                  slash-Recounts reporter amount staker info s s1
                    (known-flag reporter s.staking staker known n) room e1))
        ]
      ]
