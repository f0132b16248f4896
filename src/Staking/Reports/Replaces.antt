-- ===== src/Staking/Reports/Replaces.antt =====
-- A new entry of a staker, and what it does to the totals.
use tellor_pallet.Base.{
  ℕ, ◌+◌, ◌≡◌, refl, sym, ap, ◌∙◌, none, some, arith, lookup, insert, total, total-insert,
  total-insert_new, lookup-insert_self, lookup-insert_ne, Option-cases, eq_cases, inl, inr,
  unwrap_or,
}
use tellor_pallet.Types.{StakeInfo, new_stake_info}
use tellor_pallet.State.{Staking}
use tellor_pallet.Staking.Totals.{Totals}

-- The new entry of a staker replaces what the totals held of the old one.
pub record Replaces (st st' : Staking) (old new : StakeInfo) : Type 0 where
  pub details : st'.staker_details ≡ st.staker_details
  pub stakes :
      st'.total_stake_amount + old.staked_balance ≡ st.total_stake_amount + new.staked_balance
  pub debts : st'.total_reward_debt + old.reward_debt ≡ st.total_reward_debt + new.reward_debt
  pub withdrawals : st'.to_withdraw + old.locked_balance ≡ st.to_withdraw + new.locked_balance
  pub no_debt : new.staked_balance ≡ 0 → new.reward_debt ≡ 0

abbrev pub put : ℕ → StakeInfo → Staking → Staking
put k new st = record st { staker_details = insert k new st.staker_details }

put-no_debt :
    (k : ℕ) (st st' : Staking) (old new : StakeInfo)
    → Totals st
    → Replaces st st' old new
    → (j : ℕ) (i : StakeInfo) → lookup j (insert k new st'.staker_details) ≡ some i
    → i.staked_balance ≡ 0
    → i.reward_debt ≡ 0
put-no_debt k st st' old new t x j i e z = elim (eq_cases j k) [
  | inl same ↦
      let here : lookup j (insert k new st'.staker_details) ≡ some new =
        rw same (lookup-insert_self k new st'.staker_details) in
      let eq : i ≡ new = cc in rw eq (x.no_debt (rw eq at z))
  | inr other ↦
      t.no_stake_no_debt j i
        (ap (lookup j) (sym x.details)
          ∙ sym (lookup-insert_ne j k new st'.staker_details other)
          ∙ e)
        z
]

pub put-Totals :
    (k : ℕ) (st st' : Staking) (old new : StakeInfo)
    → Totals st
    → lookup k st.staker_details ≡ some old
    → Replaces st st' old new
    → Totals (put k new st')
put-Totals k st st' old new t known x =
    let known' : lookup k st'.staker_details ≡ some old = rw x.details known in
    let same = λ (f : StakeInfo → ℕ). ap (total f) x.details in
    record {
      stakes = omega (
        arith,
        total-insert (λ i. i.staked_balance) k new old st'.staker_details known',
        same (λ i. i.staked_balance),
        t.stakes,
        x.stakes,
      );
      debts = omega (
        arith,
        total-insert (λ i. i.reward_debt) k new old st'.staker_details known',
        same (λ i. i.reward_debt),
        t.debts,
        x.debts,
      );
      withdrawals = omega (
        arith,
        total-insert (λ i. i.locked_balance) k new old st'.staker_details known',
        same (λ i. i.locked_balance),
        t.withdrawals,
        x.withdrawals,
      );
      no_stake_no_debt = put-no_debt k st st' old new t x;
    }

put-Totals_new :
    (k : ℕ) (st st' : Staking) (address : ℕ) (new : StakeInfo)
    → Totals st
    → lookup k st.staker_details ≡ none
    → Replaces st st' (new_stake_info address) new
    → Totals (put k new st')
put-Totals_new k st st' address new t unknown x =
    let unknown' : lookup k st'.staker_details ≡ none = rw x.details unknown in
    let same = λ (f : StakeInfo → ℕ). ap (total f) x.details in
    record {
      stakes = omega (
        arith,
        total-insert_new (λ i. i.staked_balance) k new st'.staker_details unknown',
        same (λ i. i.staked_balance),
        t.stakes,
        x.stakes,
      );
      debts = omega (
        arith,
        total-insert_new (λ i. i.reward_debt) k new st'.staker_details unknown',
        same (λ i. i.reward_debt),
        t.debts,
        x.debts,
      );
      withdrawals = omega (
        arith,
        total-insert_new (λ i. i.locked_balance) k new st'.staker_details unknown',
        same (λ i. i.locked_balance),
        t.withdrawals,
        x.withdrawals,
      );
      no_stake_no_debt = put-no_debt k st st' (new_stake_info address) new t x;
    }

-- The whole report, for a staker that is known or new.
pub put_any-Totals :
    (k : ℕ) (st st' : Staking) (address : ℕ) (new : StakeInfo)
    → Totals st
    → Replaces st st' (unwrap_or (lookup k st.staker_details) (new_stake_info address)) new
    → Totals (put k new st')
put_any-Totals k st st' address new t x = elim (Option-cases (lookup k st.staker_details)) [
  | inl unknown ↦ put-Totals_new k st st' address new t unknown (rw unknown at x)
  | inr (old, known) ↦ put-Totals k st st' old new t known (rw known at x)
]

-- A staker that is known or new has no debt when it has no stake.
pub any-no_debt :
    (k : ℕ) (st : Staking) (address : ℕ)
    → Totals st
    → (unwrap_or (lookup k st.staker_details) (new_stake_info address)).staked_balance ≡ 0
    → (unwrap_or (lookup k st.staker_details) (new_stake_info address)).reward_debt ≡ 0
any-no_debt k st address t = elim (Option-cases (lookup k st.staker_details)) [
  | inl unknown ↦ rw unknown (λ z. refl)
  | inr (old, known) ↦ rw known (λ z. t.no_stake_no_debt k old known z)
]
