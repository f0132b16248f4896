-- ===== src/Governance/Dispute/Bounds.antt =====
-- Bounds of a dispute: its rounds and its fee, `begin_dispute` of src/lib.rs.
use tellor_pallet.Base.{
  ℕ, ◌+◌, ◌*◌, ◌≤◌, ◌≡◌, ap, ◌∙◌, Option, none, some, false, arith, set₂, set₂-self,
}
use tellor_pallet.Types.{ok, Vote}
use tellor_pallet.Config.{Config, protect}
use tellor_pallet.State.{Pallet}
use tellor_pallet.Governance.Dispute.{cap_fee, next_round, enter_round, new_vote}

-- A fee that is charged exceeds neither ten times the dispute fee nor the fee that is asked for, and
-- is one of the two, the former cut at the greatest balance.
pub cap_fee-le :
    (balance_max dispute_fee fee : ℕ)
    → (cap_fee balance_max dispute_fee fee ≤ dispute_fee * 10)
      × (cap_fee balance_max dispute_fee fee ≤ fee)
      × (fee ≤ balance_max → cap_fee balance_max dispute_fee fee ≤ balance_max)
unfolding cap_fee
cap_fee-le balance_max dispute_fee fee = (ground arith, ground arith, λ h. ground arith)

module _ {W : Type 0} (c : Config W) where
  -- A round that is opened is one more than the last, and the twentieth at most.
  pub next_round-bounds : (rounds n : ℕ) → next_round c rounds ≡ ok n → (n ≡ rounds + 1) × (n ≤ 20)
  unfolding next_round
  next_round-bounds rounds n e = (ground arith, ground arith)

  -- A round that is entered is the last round of its dispute and holds a vote without ballots or
  -- result, neither tallied, sent nor executed, that starts now, at a fee that exceeds neither ten
  -- times the dispute fee nor the fee asked for, and that the initiator paid.
  pub enter_round-vote :
      (dispute_id round fee initiator : ℕ) (s s' : Pallet W)
      → enter_round c dispute_id round fee initiator s ≡ ok s'
      → (paid : ℕ) × (paid ≤ s.governance.dispute_fee * 10)
        × (paid ≤ fee)
        × (c.transfer s.world initiator c.dispute_fees paid protect ≡ ok s'.world)
        × (s'.governance.vote_rounds dispute_id ≡ round)
        × (s'.governance.vote_info dispute_id round
            ≡ some (record {
              identifier = dispute_id;
              vote_round = round;
              start_date = s.now;
              block_number = s.block_number;
              fee = paid;
              tally_date = 0;
              users = record { does_support = 0; against = 0; invalid_query = 0 };
              reporters = record { does_support = 0; against = 0; invalid_query = 0 };
              sent = false;
              executed = false;
              result = none;
              initiator = initiator;
            }))
  unfolding enter_round
  enter_round-vote dispute_id round fee initiator s s' e =
      let paid = cap_fee c.balance_max s.governance.dispute_fee fee in
      let (low, asked, max) = cap_fee-le c.balance_max s.governance.dispute_fee fee in
      let infos : s'.governance.vote_info
          ≡ set₂ dispute_id round (some (new_vote c dispute_id round paid initiator s))
              s.governance.vote_info =
        ground arith in
      (
        paid,
        low,
        asked,
        ground arith,
        ground arith,
        ap (λ (m : ℕ → ℕ → Option Vote). m dispute_id round) infos
            ∙ set₂-self dispute_id round _ s.governance.vote_info,
      )
