-- ===== src/Governance/Outcome/Once.antt =====
-- A vote is tallied once, and executed once: `tally_votes` and `execute_vote` of src/impls.rs.
use tellor_pallet.Base.{
  ℕ, ◌+◌, ◌-◌, ◌*◌, ◌≤◌, ◌<◌, ◌≡◌, ◌⊎◌, refl, true, false, Option, some, arith, set₂, inl, inr,
  Option-cases, Bool-cases, set₂-self, leb,
}
use tellor_pallet.Types.{
  ok, err, DispatchError, Vote, VoteResult, vote_already_executed, vote_already_tallied,
}
use tellor_pallet.Config.{Config}
use tellor_pallet.Constants.{days}
use tellor_pallet.State.{Pallet}
use tellor_pallet.Governance.Vote.{is_dispute}
use tellor_pallet.Governance.Outcome.{tally_votes, execute_vote, voting_is_over}

-- The vote of the last round of a dispute.
abbrev pub last_vote : {W : Type 0} → ℕ → Pallet W → Option Vote
last_vote dispute_id s = s.governance.vote_info dispute_id (s.governance.vote_rounds dispute_id)

voting_is_over-times :
    (round start now : ℕ)
    → start ≤ now
    → voting_is_over round (now - start) ≡ true
    → (start + round * 86_400 ≤ now) ⊎ (start + 6 * 86_400 ≤ now)
voting_is_over-times round start now h over = elim (Bool-cases (leb (round * days) (now - start))) [
  | inl rounds ↦ inl (ground arith)
  | inr short ↦ inr (ground arith)
]

module _ {W : Type 0} (c : Config W) where
  -- A tally that is accepted finds the vote of the last round neither tallied nor executed, as many
  -- days after its start as its round, or six, or later, and gives it the result and the date of
  -- now.
  pub tally_votes-vote :
      (dispute_id : ℕ) (result : VoteResult) (s s' : Pallet W)
      → tally_votes c dispute_id result s ≡ ok s'
      → (v : Vote) × (last_vote dispute_id s ≡ some v)
        × (v.tally_date ≡ 0)
        × (v.executed ≡ false)
        × (v.start_date ≤ s.now)
        × ((v.start_date + v.vote_round * 86_400 ≤ s.now) ⊎ (v.start_date + 6 * 86_400 ≤ s.now))
        × (last_vote dispute_id s' ≡ some (record v { result = some result; tally_date = s.now }))
  unfolding tally_votes
  tally_votes-vote dispute_id result s s' e = elim (Option-cases (last_vote dispute_id s)) [
    | inl missing ↦ absurd (ground arith)
    | inr (v, found) ↦
        let rounds : s'.governance.vote_rounds ≡ s.governance.vote_rounds = ground arith in
        let votes : s'.governance.vote_info
            ≡ set₂ dispute_id (s.governance.vote_rounds dispute_id)
                (some (record v { result = some result; tally_date = s.now }))
                s.governance.vote_info =
          ground arith in
        let started : v.start_date ≤ s.now = ground arith in
        let over : voting_is_over v.vote_round (s.now - v.start_date) ≡ true = ground arith in
        (
          v,
          found,
          ground arith,
          ground arith,
          started,
          voting_is_over-times v.vote_round v.start_date s.now started over,
          (rw (votes, rounds)
              (set₂-self dispute_id (s.governance.vote_rounds dispute_id) _
                s.governance.vote_info)),
        )
  ]

  tally-refused :
      (dispute_id : ℕ) (result : VoteResult) (r : Pallet W) (v : Vote)
      → last_vote dispute_id r ≡ some v
      → v.executed ≡ false
      → 0 < v.tally_date
      → tally_votes c dispute_id result r ≡ err (DispatchError.pallet vote_already_tallied)
  unfolding tally_votes
  tally-refused dispute_id result r v found executed h = ground arith

  -- In the state that a tally accepted at a time other than zero leaves, whatever the clock,
  -- another tally of the dispute is refused, as already tallied.
  pub tally_votes-once :
      (dispute_id now' : ℕ) (result result' : VoteResult) (s s' : Pallet W)
      → 0 < s.now
      → tally_votes c dispute_id result s ≡ ok s'
      → tally_votes c dispute_id result' (record s' { now = now' })
        ≡ err (DispatchError.pallet vote_already_tallied)
  tally_votes-once dispute_id now' result result' s s' h e =
      let (v, found, tallied, executed, started, over, now) =
        tally_votes-vote dispute_id result s s' e in
      tally-refused dispute_id result' (record s' { now = now' }) _ now executed h

  -- An execution that is accepted finds the vote of the last round tallied a day ago or more and
  -- not executed, and marks it as executed.
  pub execute_vote-vote :
      (dispute_id n : ℕ) (s s' : Pallet W)
      → execute_vote c dispute_id s ≡ ok (s', n)
      → (v : Vote) × (last_vote dispute_id s ≡ some v)
        × (v.executed ≡ false)
        × (0 < v.tally_date)
        × (v.tally_date + days ≤ s.now)
        × (last_vote dispute_id s' ≡ some (record v { executed = true }))
        × (is_dispute c dispute_id s' ≡ true)
        × (s.governance.vote_rounds dispute_id ≡ n)
        × (s'.governance.vote_rounds dispute_id ≡ n)
        × (0 < n)
  unfolding execute_vote
  execute_vote-vote dispute_id n s s' e = elim (Option-cases (last_vote dispute_id s)) [
    | inl missing ↦ absurd (ground arith)
    | inr (v, found) ↦
        let rounds : s'.governance.vote_rounds ≡ s.governance.vote_rounds = ground arith in
        let votes : s'.governance.vote_info
            ≡ set₂ dispute_id (s.governance.vote_rounds dispute_id)
                (some (record v { executed = true })) s.governance.vote_info =
          ground arith in
        (
          v,
          found,
          ground arith,
          ground arith,
          ground arith,
          (rw (votes, rounds)
              (set₂-self dispute_id (s.governance.vote_rounds dispute_id) _
                s.governance.vote_info)),
          ground arith,
          ground arith,
          ground arith,
          ground arith,
        )
  ]

  execute-refused :
      (dispute_id : ℕ) (result : VoteResult) (r : Pallet W) (v : Vote)
      → last_vote dispute_id r ≡ some v
      → v.executed ≡ true
      → is_dispute c dispute_id r ≡ true
      → 0 < r.governance.vote_rounds dispute_id
      → (execute_vote c dispute_id r ≡ err (DispatchError.pallet vote_already_executed))
        × (tally_votes c dispute_id result r ≡ err (DispatchError.pallet vote_already_executed))
  unfolding tally_votes execute_vote
  execute-refused dispute_id result r v found executed dispute positive =
      (ground arith, ground arith)

  -- In the state that an accepted execution leaves, whatever the clock, the dispute is neither
  -- executed nor tallied again: both are refused, as already executed.
  pub execute_vote-once :
      (dispute_id now' n : ℕ) (result : VoteResult) (s s' : Pallet W)
      → execute_vote c dispute_id s ≡ ok (s', n)
      → (execute_vote c dispute_id (record s' { now = now' })
          ≡ err (DispatchError.pallet vote_already_executed))
        × (tally_votes c dispute_id result (record s' { now = now' })
            ≡ err (DispatchError.pallet vote_already_executed))
  execute_vote-once dispute_id now' n result s s' e =
      let (v, found, executed, tallied, waited, now, dispute, rounds, rounds', positive) =
        execute_vote-vote dispute_id n s s' e in
      execute-refused dispute_id result (record s' { now = now' }) _ now refl dispute
        (rw rounds' positive)
