-- ===== src/Governance/Vote.antt =====
-- `do_vote` of src/impls.rs, and the dispatchables `vote` and `vote_on_multiple_disputes`.
pub mod Ballot
use tellor_pallet.Base.{
  ℕ, ◌+◌, ◌*◌, Bool, true, false, not, ◌&&◌, Option, none, some, List, [], ◌∷◌, if◌then◌else◌, ◌==◌,
  is_some, set, set₂, set₃,
}
use tellor_pallet.Base.Machine.{saturating_add, saturating_inc, u32_max, u128_max}
use tellor_pallet.Types.{
  Result, ok, ◌>>=◌, ◌>>◌, ensure, require, Origin, ensure_signed, Tally, Vote, Event, voted,
  invalid_dispute, invalid_vote, vote_already_tallied, already_voted, vote_already_sent,
}
use tellor_pallet.Config.{Config}
use tellor_pallet.State.{Governance, Pallet, deposit_event}
use tellor_pallet.Oracle.Series.{get_reports_submitted_by_address}

-- A weight is added to one of the three counts, up to the greatest value.
unfoldable pub add_to_tally : ℕ → Option Bool → ℕ → Tally → Tally
add_to_tally max none weight t = record t {
  invalid_query = saturating_add max t.invalid_query weight;
}
add_to_tally max (some true) weight t = record t {
  does_support = saturating_add max t.does_support weight;
}
add_to_tally max (some false) weight t = record t { against = saturating_add max t.against weight }

module _ {W : Type 0} (c : Config W) where
  -- The identifier is that of a dispute: `do_vote` and `execute_vote` begin with it.
  abbrev pub is_dispute : ℕ → Pallet W → Bool
  is_dispute dispute_id s =
      not (dispute_id == 0)
      && not (dispute_id == c.keccak256 [])
      && is_some (s.governance.dispute_info dispute_id)

  unfoldable pub do_vote : ℕ → ℕ → Option Bool → Pallet W → Result (Pallet W)
  do_vote voter dispute_id supports s = do
    let g = s.governance
    ensure (is_dispute dispute_id s) invalid_dispute
    let vote_round = g.vote_rounds dispute_id
    vote ← require (g.vote_info dispute_id vote_round) invalid_vote
    ensure (vote.tally_date == 0) vote_already_tallied
    ensure (not (g.votes dispute_id vote.vote_round voter)) already_voted
    ensure (not vote.sent) vote_already_sent
    let reports = get_reports_submitted_by_address s.staking voter
    let user_tips = s.autopay.user_tips_total voter
    let vote' = record vote {
      reporters = add_to_tally u128_max supports reports vote.reporters;
      users = add_to_tally c.balance_max supports user_tips vote.users;
    }
    ok (
        deposit_event (voted dispute_id supports voter) (record s {
          governance = record g {
            votes = set₃ dispute_id vote_round voter true g.votes;
            vote_info = set₂ dispute_id vote_round (some vote') g.vote_info;
            vote_tally_by_address =
                set voter (saturating_inc u32_max (g.vote_tally_by_address voter))
                  g.vote_tally_by_address;
          };
        }))

  unfoldable pub vote : Origin → ℕ → Option Bool → Pallet W → Result (Pallet W)
  vote origin dispute_id supports s = do
    voter ← ensure_signed origin
    do_vote voter dispute_id supports s

  -- The loop of `vote_on_multiple_disputes`: the first vote that fails ends it.
  unfoldable pub vote_on_all : ℕ → List (ℕ × Option Bool) → Pallet W → Result (Pallet W)
  vote_on_all voter [] s = ok s
  vote_on_all voter ((dispute_id, supports) ∷ votes) s =
      do_vote voter dispute_id supports s >>= vote_on_all voter votes

  unfoldable pub vote_on_multiple_disputes :
      Origin → List (ℕ × Option Bool) → Pallet W → Result (Pallet W)
  vote_on_multiple_disputes origin votes s = do
    voter ← ensure_signed origin
    vote_on_all voter votes s
