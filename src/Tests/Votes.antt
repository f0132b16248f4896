-- ===== src/Tests/Votes.antt =====
-- Runs of a vote: a round is entered, voted on, tallied and executed.
use mathlib.Core.List.{Perm}
use tellor_pallet.Base.{
  ℕ, ◌+◌, ◌*◌, ◌≡◌, ◌≤◌, ◌<◌, ◌⊎◌, refl, true, false, none, some, [], ◌∷◌, ◌++◌, List, Assoc, arith,
  set, length,
}
use tellor_pallet.Base.Machine.{u128_max}
use tellor_pallet.Types.{
  Result, ok, err, DispatchError, is_ok, ok_value, Vote, passed, already_voted,
  vote_already_tallied, vote_already_executed,
}
use tellor_pallet.Config.{protect}
use tellor_pallet.Constants.{days}
use tellor_pallet.State.{Pallet}
use tellor_pallet.Oracle.Series.{get_reports_submitted_by_address}
use tellor_pallet.Governance.Vote.{is_dispute, do_vote, add_to_tally}
use tellor_pallet.Governance.Vote.Ballot.{counted, do_vote-vote, do_vote-once}
use tellor_pallet.Governance.Dispute.{cap_fee, next_round, enter_round}
use tellor_pallet.Governance.Dispute.Bounds.{cap_fee-le, enter_round-vote}
use tellor_pallet.Governance.Outcome.{tally_votes, execute_vote, pay_fees}
use tellor_pallet.Governance.Outcome.Once.{
  last_vote, tally_votes-vote, tally_votes-once, execute_vote-vote, execute_vote-once,
}
use tellor_pallet.Governance.Send.{Pending, due_votes, insert_by_schedule, sort_by_schedule}
use tellor_pallet.Governance.Send.Due.{AllDue, AllLate, InOrder, due_votes-Due}
use tellor_pallet.Tests.{runtime, genesis, after, at}

unfoldable pub evaluate : ℕ
unfolding cap_fee next_round enter_round do_vote add_to_tally tally_votes pay_fees execute_vote
evaluate = 0

-- A dispute of the value of a report, without a round yet.
abbrev disputed : Pallet ℕ
disputed = record genesis {
  governance = record genesis.governance {
    dispute_info =
        set 9
          (some (record {
            query_id = 5;
            timestamp = 1_000_000;
            value = 1 ∷ [];
            disputed_reporter = 7;
            slashed_amount = 100;
          }))
          (λ d. none);
  };
}

abbrev entry : Result (Pallet ℕ)
entry = enter_round runtime 9 1 5_000 8 disputed

enters : is_ok entry ≡ true
unfolding evaluate
enters = refl

abbrev pub opened : Pallet ℕ
opened = ok_value entry genesis

abbrev ballot : Result (Pallet ℕ)
ballot = do_vote runtime 7 9 (some true) opened

votes : is_ok ballot ≡ true
unfolding evaluate
votes = refl

abbrev voted : Pallet ℕ
voted = ok_value ballot genesis

abbrev tally : Result (Pallet ℕ)
tally = tally_votes runtime 9 passed (at 1_100_000 voted)

tallies : is_ok tally ≡ true
unfolding evaluate
tallies = refl

abbrev pub decided : Pallet ℕ
decided = ok_value tally genesis

abbrev execution : Result (Pallet ℕ × ℕ)
execution = execute_vote runtime 9 (at 1_200_000 decided)

executes : is_ok execution ≡ true
unfolding evaluate
executes = refl

abbrev closed : Pallet ℕ × ℕ
closed = ok_value execution (genesis, 0)

cap_fee-le_example :
    (cap_fee u128_max 100 5_000 ≤ 100 * 10)
    × (cap_fee u128_max 100 5_000 ≤ 5_000)
    × (5_000 ≤ u128_max → cap_fee u128_max 100 5_000 ≤ u128_max)
cap_fee-le_example = cap_fee-le u128_max 100 5_000

enter_round-vote_example :
    (paid : ℕ) × (paid ≤ 100 * 10)
    × (paid ≤ 5_000)
    × (runtime.transfer 0 8 91 paid protect ≡ ok opened.world)
    × (opened.governance.vote_rounds 9 ≡ 1)
    × (opened.governance.vote_info 9 1
        ≡ some (record {
          identifier = 9;
          vote_round = 1;
          start_date = disputed.now;
          block_number = disputed.block_number;
          fee = paid;
          tally_date = 0;
          users = record { does_support = 0; against = 0; invalid_query = 0 };
          reporters = record { does_support = 0; against = 0; invalid_query = 0 };
          sent = false;
          executed = false;
          result = none;
          initiator = 8;
        }))
enter_round-vote_example =
    enter_round-vote runtime 9 1 5_000 8 disputed opened (after entry genesis enters)

do_vote-vote_example :
    (v : Vote) × (opened.governance.vote_info 9 (opened.governance.vote_rounds 9) ≡ some v)
    × (v.tally_date ≡ 0)
    × (v.sent ≡ false)
    × (opened.governance.votes 9 v.vote_round 7 ≡ false)
    × (voted.governance.votes 9 (opened.governance.vote_rounds 9) 7 ≡ true)
    × (is_dispute runtime 9 voted ≡ true)
    × (voted.governance.vote_rounds ≡ opened.governance.vote_rounds)
    × (voted.governance.vote_info 9 (opened.governance.vote_rounds 9)
        ≡ some (record v {
          reporters =
              counted u128_max
                (some true)
                (get_reports_submitted_by_address opened.staking 7)
                v.reporters;
          users =
              counted runtime.balance_max (some true) (opened.autopay.user_tips_total 7) v.users;
        }))
do_vote-vote_example =
    do_vote-vote runtime 7 9 (some true) opened voted (after ballot genesis votes)

carries_round :
    (v : Vote)
    → opened.governance.vote_info 9 (opened.governance.vote_rounds 9) ≡ some v
    → v.vote_round ≡ opened.governance.vote_rounds 9
unfolding evaluate
carries_round v e = ground arith

do_vote-once_example : do_vote runtime 7 9 none voted ≡ err (DispatchError.pallet already_voted)
do_vote-once_example =
    do_vote-once runtime 7 9 (some true) none opened voted carries_round
      (after ballot genesis votes)

tally_votes-vote_example :
    (v : Vote) × (last_vote 9 voted ≡ some v)
    × (v.tally_date ≡ 0)
    × (v.executed ≡ false)
    × (v.start_date ≤ 1_100_000)
    × ((v.start_date + v.vote_round * 86_400 ≤ 1_100_000) ⊎ (v.start_date + 6 * 86_400 ≤ 1_100_000))
    × (last_vote 9 decided ≡ some (record v { result = some passed; tally_date = 1_100_000 }))
tally_votes-vote_example =
    tally_votes-vote runtime 9 passed (at 1_100_000 voted) decided (after tally genesis tallies)

tally_votes-once_example :
    tally_votes runtime 9 passed (at 1_150_000 decided)
    ≡ err (DispatchError.pallet vote_already_tallied)
tally_votes-once_example =
    tally_votes-once runtime 9 1_150_000 passed passed (at 1_100_000 voted) decided (omega arith)
      (after tally genesis tallies)

execute_vote-vote_example :
    (v : Vote) × (last_vote 9 decided ≡ some v)
    × (v.executed ≡ false)
    × (0 < v.tally_date)
    × (v.tally_date + days ≤ 1_200_000)
    × (last_vote 9 closed.0 ≡ some (record v { executed = true }))
    × (is_dispute runtime 9 closed.0 ≡ true)
    × (decided.governance.vote_rounds 9 ≡ closed.1)
    × (closed.0.governance.vote_rounds 9 ≡ closed.1)
    × (0 < closed.1)
execute_vote-vote_example =
    execute_vote-vote runtime 9 closed.1 (at 1_200_000 decided) closed.0
      (after execution (genesis, 0) executes)

execute_vote-once_example :
    (execute_vote runtime 9 (at 1_300_000 closed.0)
      ≡ err (DispatchError.pallet vote_already_executed))
    × (tally_votes runtime 9 passed (at 1_300_000 closed.0)
        ≡ err (DispatchError.pallet vote_already_executed))
execute_vote-once_example =
    execute_vote-once runtime 9 1_300_000 closed.1 passed (at 1_200_000 decided) closed.0
      (after execution (genesis, 0) executes)

abbrev pending : Assoc (ℕ × ℕ)
pending = (1, (1, 40)) ∷ (2, (1, 60)) ∷ (3, (2, 30)) ∷ (4, (1, 20)) ∷ []

due_votes-Due_example :
    (left : List Pending) × (late : List Pending) × Perm
      ((due_votes 50 2 pending ++ left) ++ late)
      pending
    × AllDue 50 (due_votes 50 2 pending ++ left)
    × AllLate 50 late
    × InOrder (due_votes 50 2 pending ++ left)
    × (length (due_votes 50 2 pending) ≤ 2)
    × ((length (due_votes 50 2 pending) ≡ 2) ⊎ (left ≡ []))
due_votes-Due_example = due_votes-Due 50 2 pending

-- The two that are due longest.
takes_longest_due : due_votes 50 2 pending ≡ (4, (1, 20)) ∷ (3, (2, 30)) ∷ []
unfolding due_votes sort_by_schedule insert_by_schedule
takes_longest_due = refl
