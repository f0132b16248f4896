-- ===== src/Governance/Outcome.antt =====
-- The tally of a vote and its execution: `tally_votes` and `execute_vote` of src/impls.rs.
pub mod Once
pub mod Fees
use tellor_pallet.Base.{
  ℕ, zero, suc, ◌-◌, ◌*◌, Bool, true, false, not, ◌||◌, Option, none, some, List, ◌∷◌,
  if◌then◌else◌, leb, ltb, ◌==◌, set, set₂,
}
use tellor_pallet.Base.Machine.{checked_sub}
use tellor_pallet.Types.{
  Result, ok, ◌>>=◌, ◌>>◌, no_underflow, ensure, require, ensure_origin, Origin, Vote, Dispute,
  VoteResult, failed, passed, invalid, Event, vote_tallied, vote_executed, invalid_dispute,
  invalid_vote, vote_already_executed, vote_already_tallied, voting_period_active, vote_not_tallied,
  tally_dispute_period_active,
}
use tellor_pallet.Config.{Config, protect}
use tellor_pallet.Constants.{days}
use tellor_pallet.State.{Governance, Pallet, deposit_event}
use tellor_pallet.Governance.Vote.{is_dispute}

-- One day for each round, and six days at most, have passed since the start.
abbrev pub voting_is_over : ℕ → ℕ → Bool
voting_is_over vote_round elapsed = leb (vote_round * days) elapsed || leb (6 * days) elapsed

-- `OpenDisputesOnId` goes down by one, where there is a count.
abbrev pub close_dispute : Option ℕ → Option ℕ
close_dispute none = none
close_dispute (some disputes) = some (disputes - 1)

-- The dispute fee goes to the initiator of the round, or to the disputed reporter.
abbrev pub fee_receiver : VoteResult → ℕ → ℕ → ℕ
fee_receiver passed initiator reporter = initiator
fee_receiver invalid initiator reporter = initiator
fee_receiver failed initiator reporter = reporter

module _ {W : Type 0} (c : Config W) where
  unfoldable pub tally_votes : ℕ → VoteResult → Pallet W → Result (Pallet W)
  tally_votes dispute_id result s = do
    let g = s.governance
    let vote_round = g.vote_rounds dispute_id
    vote ← require (g.vote_info dispute_id vote_round) invalid_dispute
    ensure (not vote.executed) vote_already_executed
    ensure (vote.tally_date == 0) vote_already_tallied
    elapsed ← no_underflow (checked_sub s.now vote.start_date)
    ensure (voting_is_over vote.vote_round elapsed) voting_period_active
    dispute ← require (g.dispute_info dispute_id) invalid_dispute
    ok (
        deposit_event (vote_tallied dispute_id result vote.initiator dispute.disputed_reporter)
          (record s {
            governance = record g {
              vote_info =
                  set₂ dispute_id vote_round
                    (some (record vote { result = some result; tally_date = s.now })) g.vote_info;
            };
          }))

  -- The loop over the rounds, downwards. The fee of the last round is that of the vote at hand.
  unfoldable pub pay_fees : ℕ → ℕ → Vote → (ℕ → Option Vote) → VoteResult → ℕ → W → Result W
  pay_fees zero final_round vote votes result reporter world = ok world
  pay_fees (suc round) final_round vote votes result reporter world = do
    paid ← (if suc round == final_round then ok vote else require (votes (suc round)) invalid_vote)
    world' ←
        c.transfer world c.dispute_fees (fee_receiver result paid.initiator reporter) paid.fee
          protect
    pay_fees round final_round vote votes result reporter world'

  unfoldable pub execute_vote : ℕ → Pallet W → Result (Pallet W × ℕ)
  execute_vote dispute_id s = do
    let g = s.governance
    ensure (is_dispute c dispute_id s) invalid_dispute
    let final_round = g.vote_rounds dispute_id
    ensure (ltb 0 final_round) invalid_vote
    vote ← require (g.vote_info dispute_id final_round) invalid_vote
    ensure (not vote.executed) vote_already_executed
    ensure (ltb 0 vote.tally_date) vote_not_tallied
    result ← require vote.result vote_not_tallied
    elapsed ← no_underflow (checked_sub s.now vote.tally_date)
    ensure (leb (1 * days) elapsed) tally_dispute_period_active
    dispute ← require (g.dispute_info dispute_id) invalid_dispute
    world ←
        pay_fees final_round final_round vote (g.vote_info dispute_id) result
          dispute.disputed_reporter s.world
    ok (
      deposit_event (vote_executed dispute_id result) (record s {
        world = world;
        governance = record g {
          open_disputes_on_id =
              set dispute.query_id (close_dispute (g.open_disputes_on_id dispute.query_id))
                g.open_disputes_on_id;
          vote_info =
              set₂ dispute_id final_round (some (record vote { executed = true })) g.vote_info;
        };
      }),
      final_round,
    )

  unfoldable pub report_vote_tallied : Origin → ℕ → VoteResult → Pallet W → Result (Pallet W)
  report_vote_tallied origin dispute_id result s = do
    ensure_origin (c.governance_origin origin)
    tally_votes dispute_id result s

  unfoldable pub report_vote_executed : Origin → ℕ → Pallet W → Result (Pallet W)
  report_vote_executed origin dispute_id s = do
    ensure_origin (c.governance_origin origin)
    (s1, _) ← execute_vote dispute_id s
    ok s1
