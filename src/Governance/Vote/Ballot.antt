-- ===== src/Governance/Vote/Ballot.antt =====
-- One ballot for each voter and round: `do_vote` of src/impls.rs.
use tellor_pallet.Base.{
  ℕ, ◌+◌, ◌≡◌, refl, ap, ◌∙◌, Bool, true, false, Option, none, some, leb, arith, set₂, set₃, inl,
  inr, Option-cases, set₂-self, set₃-self,
}
use tellor_pallet.Base.Machine.{saturating_add, u128_max}
use tellor_pallet.Types.{ok, err, DispatchError, Tally, Vote, already_voted}
use tellor_pallet.Config.{Config}
use tellor_pallet.State.{Pallet}
use tellor_pallet.Oracle.Series.{get_reports_submitted_by_address}
use tellor_pallet.Governance.Vote.{is_dispute, do_vote, add_to_tally}

-- The sum of two counts, or the greatest value where that is less.
abbrev pub up_to : ℕ → ℕ → ℕ
up_to max sum = elim (leb sum max) [ true ↦ sum | false ↦ max ]

-- A weight counts for the dispute, against it, or for the query being invalid.
abbrev pub counted : ℕ → Option Bool → ℕ → Tally → Tally
counted max supports weight t = record {
  does_support = elim supports [
    | some true ↦ up_to max (t.does_support + weight)
    | some false ↦ t.does_support
    | none ↦ t.does_support
  ];
  against = elim supports [
    | some true ↦ t.against
    | some false ↦ up_to max (t.against + weight)
    | none ↦ t.against
  ];
  invalid_query = elim supports [
    | some true ↦ t.invalid_query
    | some false ↦ t.invalid_query
    | none ↦ up_to max (t.invalid_query + weight)
  ];
}

saturating_add-up_to : (max a b : ℕ) → saturating_add max a b ≡ up_to max (a + b)
saturating_add-up_to max a b = ground arith

add_to_tally-counted :
    (max : ℕ) (supports : Option Bool) (weight : ℕ) (t : Tally)
    → add_to_tally max supports weight t ≡ counted max supports weight t
unfolding add_to_tally
add_to_tally-counted max (some true) weight t = rw saturating_add-up_to refl
add_to_tally-counted max (some false) weight t = rw saturating_add-up_to refl
add_to_tally-counted max none weight t = rw saturating_add-up_to refl

module _ {W : Type 0} (c : Config W) where
  -- A vote that is accepted finds a vote that is neither tallied nor sent and in which the voter
  -- has no ballot, adds the reports and tips of the voter, up to the greatest value, to the count
  -- for the dispute if it supports it, to the count against if it does not, and to that of invalid
  -- queries if it does neither, changes nothing else of the vote, and records the ballot in the
  -- last round.
  pub do_vote-vote :
      (voter dispute_id : ℕ) (supports : Option Bool) (s s' : Pallet W)
      → do_vote c voter dispute_id supports s ≡ ok s'
      → (v : Vote) × (s.governance.vote_info dispute_id (s.governance.vote_rounds dispute_id)
          ≡ some v)
        × (v.tally_date ≡ 0)
        × (v.sent ≡ false)
        × (s.governance.votes dispute_id v.vote_round voter ≡ false)
        × (s'.governance.votes dispute_id (s.governance.vote_rounds dispute_id) voter ≡ true)
        × (is_dispute c dispute_id s' ≡ true)
        × (s'.governance.vote_rounds ≡ s.governance.vote_rounds)
        × (s'.governance.vote_info dispute_id (s.governance.vote_rounds dispute_id)
            ≡ some (record v {
              reporters =
                  counted u128_max supports
                    (get_reports_submitted_by_address s.staking voter)
                    v.reporters;
              users = counted c.balance_max supports (s.autopay.user_tips_total voter) v.users;
            }))
  unfolding do_vote
  do_vote-vote voter dispute_id supports s s' e =
      elim (Option-cases
        (s.governance.vote_info dispute_id (s.governance.vote_rounds dispute_id))) [
          | inl missing ↦ absurd (ground arith)
          | inr (v, found) ↦
              let round = s.governance.vote_rounds dispute_id in
              let v' : Vote = record v {
                reporters =
                    counted u128_max supports (get_reports_submitted_by_address s.staking voter)
                      v.reporters;
                users = counted c.balance_max supports (s.autopay.user_tips_total voter) v.users;
              } in
              let reporters =
                add_to_tally-counted u128_max supports
                  (get_reports_submitted_by_address s.staking voter) v.reporters in
              let users =
                add_to_tally-counted c.balance_max supports (s.autopay.user_tips_total voter)
                  v.users in
              let rounds : s'.governance.vote_rounds ≡ s.governance.vote_rounds = ground arith in
              let infos : s'.governance.vote_info
                  ≡ set₂ dispute_id round (some v') s.governance.vote_info =
                ground arith in
              let votes : s'.governance.votes
                  ≡ set₃ dispute_id round voter true s.governance.votes =
                ground arith in
              (
                v,
                found,
                ground arith,
                ground arith,
                ground arith,
                ap (λ (m : ℕ → ℕ → ℕ → Bool). m dispute_id round voter) votes
                    ∙ set₃-self dispute_id round voter true s.governance.votes,
                ground arith,
                rounds,
                ap (λ (m : ℕ → ℕ → Option Vote). m dispute_id round) infos
                    ∙ set₂-self dispute_id round (some v') s.governance.vote_info,
              )
        ]

  ballot-refused :
      (voter dispute_id : ℕ) (supports : Option Bool) (r : Pallet W) (v : Vote)
      → r.governance.vote_info dispute_id (r.governance.vote_rounds dispute_id) ≡ some v
      → v.tally_date ≡ 0
      → is_dispute c dispute_id r ≡ true
      → r.governance.votes dispute_id v.vote_round voter ≡ true
      → do_vote c voter dispute_id supports r ≡ err (DispatchError.pallet already_voted)
  unfolding do_vote
  ballot-refused voter dispute_id supports r v found tallied dispute voted = ground arith

  -- Where the vote of the last round of a dispute carries that round, a voter whose vote is
  -- accepted is refused a second one in the state that it leaves, whichever way it would go.
  pub do_vote-once :
      (voter dispute_id : ℕ) (supports supports' : Option Bool) (s s' : Pallet W)
      → ((v : Vote)
          → s.governance.vote_info dispute_id (s.governance.vote_rounds dispute_id) ≡ some v
          → v.vote_round ≡ s.governance.vote_rounds dispute_id)
      → do_vote c voter dispute_id supports s ≡ ok s'
      → do_vote c voter dispute_id supports' s' ≡ err (DispatchError.pallet already_voted)
  do_vote-once voter dispute_id supports supports' s s' h e =
      let (v, found, tallied, sent, before, after, dispute, rounds, now) =
        do_vote-vote voter dispute_id supports s s' e in
      let same = ap (λ (m : ℕ → ℕ). m dispute_id) rounds in
      ballot-refused voter dispute_id supports' s' _
        (ap (λ (x : ℕ). s'.governance.vote_info dispute_id x) same ∙ now) tallied dispute
        (rw (h v found) after)
