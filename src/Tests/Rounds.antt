-- ===== src/Tests/Rounds.antt =====
-- A run of a dispute: it is begun, voted on, sent, tallied and executed.
use tellor_pallet.Base.{ℕ, ◌+◌, ◌*◌, ◌≡◌, ◌≢◌, ◌≤◌, refl, true, false, some, arith}
use tellor_pallet.Types.{Result, is_ok, ok_value, Origin, Vote, passed}
use tellor_pallet.State.{Pallet}
use tellor_pallet.Governance.Vote.{do_vote}
use tellor_pallet.Governance.Dispute.{dispute_id_of}
use tellor_pallet.Governance.Dispute.Opens.{begin_dispute-round}
use tellor_pallet.Governance.Outcome.{tally_votes, execute_vote}
use tellor_pallet.Governance.Send.{
  send_vote, send_all, do_send_votes, due_votes, sort_by_schedule, insert_by_schedule,
}
use tellor_pallet.Governance.Rounds.{
  CarryRounds, disputed, cast, sent, tallied, executed, apart, start, call, History-CarryRounds,
}
use tellor_pallet.Tests.{runtime, genesis, after, at}
use tellor_pallet.Tests.Reads.{reported2}
use tellor_pallet.Tests.Disputes
use tellor_pallet.Tests.Disputes.{dispute, disputes, removed}

unfoldable evaluate : ℕ
unfolding Disputes.evaluate send_vote send_all do_send_votes due_votes sort_by_schedule
    insert_by_schedule
evaluate = 0

abbrev ballot : Result (Pallet ℕ)
ballot = do_vote runtime 7 1 (some true) removed

votes : is_ok ballot ≡ true
unfolding evaluate
votes = refl

abbrev voted : Pallet ℕ
voted = ok_value ballot genesis

abbrev sending : Pallet ℕ × ℕ
sending = do_send_votes runtime 1_150_000 3 voted

-- One vote is taken up, and it is marked as sent.
sends : sending.1 ≡ 1
unfolding evaluate
sends = refl

marks : (v : Vote) × (sending.0.governance.vote_info 1 1 ≡ some v) × (v.sent ≡ true)
unfolding evaluate
marks = (_, refl, refl)

abbrev tally : Result (Pallet ℕ)
tally = tally_votes runtime 1 passed (at 1_200_000 sending.0)

tallies : is_ok tally ≡ true
unfolding evaluate
tallies = refl

abbrev decided : Pallet ℕ
decided = ok_value tally genesis

abbrev execution : Result (Pallet ℕ × ℕ)
execution = execute_vote runtime 1 (at 1_300_000 decided)

executes : is_ok execution ≡ true
unfolding evaluate
executes = refl

abbrev closed : Pallet ℕ × ℕ
closed = ok_value execution (genesis, 0)

begin_dispute-round_example :
    (v : Vote) × (removed.governance.vote_info
        (dispute_id_of runtime 5 1_100_000)
        (reported2.governance.vote_rounds (dispute_id_of runtime 5 1_100_000) + 1)
      ≡ some v)
    × (v.vote_round ≡ reported2.governance.vote_rounds (dispute_id_of runtime 5 1_100_000) + 1)
    × (v.initiator ≡ 8)
    × (v.start_date ≡ reported2.now)
    × (v.tally_date ≡ 0)
    × (v.sent ≡ false)
    × (v.executed ≡ false)
    × (v.fee ≤ reported2.governance.dispute_fee * 10)
    × (removed.governance.vote_rounds (dispute_id_of runtime 5 1_100_000)
        ≡ reported2.governance.vote_rounds (dispute_id_of runtime 5 1_100_000) + 1)
    × (removed.governance.vote_rounds (dispute_id_of runtime 5 1_100_000) ≤ 20)
    × ((other : ℕ)
        → other ≢ dispute_id_of runtime 5 1_100_000
        → removed.governance.vote_rounds other ≡ reported2.governance.vote_rounds other)
begin_dispute-round_example =
    begin_dispute-round runtime 8 5 1_100_000 (some 1) reported2 removed
      (after dispute genesis disputes)

no_votes : CarryRounds reported2.governance
unfolding evaluate
no_votes d r v e = absurd (ground arith)

-- The five calls, one after the other, and the time that passes between them.
History-CarryRounds_example : CarryRounds closed.0.governance
History-CarryRounds_example = History-CarryRounds runtime reported2 closed.0 no_votes (
    call (at 1_300_000 decided) closed.0
      (call decided (at 1_300_000 decided)
        (call (at 1_200_000 sending.0) decided
          (call sending.0 (at 1_200_000 sending.0)
            (call voted sending.0
              (call removed voted
                (call reported2 removed start (
                  disputed (Origin.signed 8) 5 1_100_000 (some 1) (after dispute genesis disputes)))
                (cast 7 1 (some true) (after ballot genesis votes)))
              (sent 1_150_000 3 refl))
            (apart refl))
          (tallied 1 passed (after tally genesis tallies)))
        (apart refl))
      (executed 1 closed.1 (after execution (genesis, 0) executes)))
