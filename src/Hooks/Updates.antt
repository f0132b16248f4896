-- ===== src/Hooks/Updates.antt =====
-- What a block does to the parameters: `on_initialize` of src/lib.rs.
use mathlib.Core.Path.{subst}
use tellor_pallet.Base.{
  ℕ, ◌≡◌, Bool, if◌then◌else◌, sym, ◌∙◌, ap, ◌⊎◌, true, arith, inl, inr, Bool-cases,
}
use tellor_pallet.Types.{Result, ok, ok_value, Result-cases}
use tellor_pallet.Config.{Config}
use tellor_pallet.Constants.{max_aggregate_votes_sent_per_block}
use tellor_pallet.State.{Oracle, Staking, Pallet}
use tellor_pallet.Governance.Fees.{do_update_stake_amount, update_dispute_fee}
use tellor_pallet.Governance.Send.{do_send_votes}
use tellor_pallet.Governance.Send.Once.{do_send_votes-same}
use tellor_pallet.Hooks.{update_is_due, update_both, on_initialize}

-- The stake amount, the dispute fee and the time of their last update are those of a state.
pub record SameParameters {W : Type 0} (s s' : Pallet W) : Type 0 where
  pub stake_amount : s'.staking.stake_amount ≡ s.staking.stake_amount
  pub dispute_fee : s'.governance.dispute_fee ≡ s.governance.dispute_fee
  pub last_update : s'.oracle.last_stake_amount_update ≡ s.oracle.last_stake_amount_update

module _ {W : Type 0} (c : Config W) where
  sent-SameParameters :
      (timestamp max : ℕ) (s : Pallet W) → SameParameters s (do_send_votes c timestamp max s).0
  sent-SameParameters timestamp max s =
      let same = do_send_votes-same c timestamp max s in
      record {
        stake_amount = ap (λ (st : Staking). st.stake_amount) same.staking;
        dispute_fee = same.dispute_fee;
        last_update = ap (λ (o : Oracle). o.last_stake_amount_update) same.oracle;
      }

  -- Both updates in turn, the second in the state that the first leaves.
  pub record BothUpdates (s s2 : Pallet W) : Type 0 where
    pub middle : Pallet W
    pub rounds : ℕ
    pub rounds' : ℕ
    pub last : Pallet W
    pub stake_amount : do_update_stake_amount c s ≡ ok (middle, rounds)
    pub dispute_fee : update_dispute_fee c middle ≡ ok (last, rounds')
    pub time : s2 ≡ record last { oracle = record last.oracle { last_stake_amount_update = s.now } }

  update_both-BothUpdates : (s s2 : Pallet W) → update_both c s ≡ ok s2 → BothUpdates s s2
  unfolding update_both
  update_both-BothUpdates s s2 e = elim (Result-cases (do_update_stake_amount c s)) [
    | inr (x, failed) ↦ absurd (ground arith)
    | inl ((s1, n), first) ↦ elim (Result-cases (update_dispute_fee c s1)) [
      | inr (x, failed) ↦ absurd (ground arith)
      | inl ((last, n'), second) ↦ record {
        middle = s1;
        rounds = n;
        rounds' = n';
        last = last;
        stake_amount = first;
        dispute_fee = second;
        time = ground arith;
      }
    ]
  ]

  -- The state in which the votes are sent.
  abbrev updated : Bool → Result (Pallet W) → Pallet W → Pallet W
  updated due both s = if due then ok_value both s else s

  -- The votes are sent in that state.
  abbrev sent_after : Pallet W → Pallet W
  sent_after s1 = (do_send_votes c s1.now max_aggregate_votes_sent_per_block s1).0

  on_initialize_lem :
      (s s1 : Pallet W)
      → updated (update_is_due c s) (update_both c s) s ≡ s1
      → SameParameters s1 (on_initialize c s)
  unfolding on_initialize
  on_initialize_lem s s1 e =
      subst (λ z. SameParameters s1 (sent_after z)) (sym e)
        (sent-SameParameters s1.now max_aggregate_votes_sent_per_block s1)

  -- A block either leaves the stake amount, the dispute fee and the time of their last update as
  -- they were, or both updates are due, are accepted, and the block leaves all three as they do: an
  -- update that fails undoes the other.
  pub on_initialize-updates :
      (s : Pallet W)
      → SameParameters s (on_initialize c s)
        ⊎ ((s2 : Pallet W) × (update_is_due c s ≡ true)
            × BothUpdates s s2
            × SameParameters s2 (on_initialize c s))
  on_initialize-updates s = elim (Bool-cases (update_is_due c s)) [
    | inr early ↦ inl (on_initialize_lem s s (ap (λ b. updated b (update_both c s) s) early))
    | inl due ↦
        let begun = ap (λ b. updated b (update_both c s) s) due in
        elim (Result-cases (update_both c s)) [
          | inr (x, failed) ↦
              inl (on_initialize_lem s s (begun ∙ ap (λ r. updated true r s) failed))
          | inl (s2, e) ↦ inr (
            s2,
            due,
            update_both-BothUpdates s s2 e,
            on_initialize_lem s s2 (begun ∙ ap (λ r. updated true r s) e),
          )
        ]
  ]
