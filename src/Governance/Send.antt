-- ===== src/Governance/Send.antt =====
-- `do_send_votes` of src/impls.rs and the dispatchable `send_votes`.
pub mod Due
pub mod Once
use tellor_pallet.Base.{
  ℕ, true, not, some, List, [], ◌∷◌, if◌then◌else◌, leb, take, keep, Assoc, remove, set₂,
}
use tellor_pallet.Types.{
  Result, ok, ◌>>=◌, ◌>>◌, ensure, require, ok_value, Origin, ensure_signed, vote_sent,
  invalid_vote, vote_already_sent,
}
use tellor_pallet.Base.Machine.{saturating_inc, u32_max}
use tellor_pallet.Contracts
use tellor_pallet.Contracts.{gas_limit_vote}
use tellor_pallet.Config.{Config}
use tellor_pallet.State.{Pallet}
use tellor_pallet.Xcm.{call_contract}

-- A pending vote: its dispute, with the round and the time from which it is due.
abbrev pub Pending : Type 0
Pending = ℕ × (ℕ × ℕ)

abbrev pub scheduled : Pending → ℕ
scheduled p = p.1.1

-- `sort_by_key` by the scheduled time, which is stable: an insertion sort.
unfoldable pub insert_by_schedule : Pending → List Pending → List Pending
insert_by_schedule p [] = p ∷ []
insert_by_schedule p (q ∷ ps) =
    if leb (scheduled p) (scheduled q) then p ∷ q ∷ ps else q ∷ insert_by_schedule p ps

unfoldable pub sort_by_schedule : List Pending → List Pending
sort_by_schedule [] = []
sort_by_schedule (p ∷ ps) = insert_by_schedule p (sort_by_schedule ps)

-- The votes that a call takes up: those due, the longest due first, at most `max`.
unfoldable pub due_votes : ℕ → ℕ → Assoc (ℕ × ℕ) → List Pending
due_votes timestamp max pending =
    take max (sort_by_schedule (keep (λ p. leb (scheduled p) timestamp) pending))

module _ {W : Type 0} (c : Config W) where
  -- The closure of `VoteInfo::try_mutate`.
  unfoldable pub send_vote : Pending → Pallet W → Result (Pallet W)
  send_vote (dispute_id, (vote_round, _)) s = do
    vote ← require (s.governance.vote_info dispute_id vote_round) invalid_vote
    ensure (not vote.sent) vote_already_sent
    let call =
        Contracts.vote c.abi_encode dispute_id vote.users.does_support vote.users.against
          vote.users.invalid_query vote.reporters.does_support vote.reporters.against
          vote.reporters.invalid_query
    s1 ←
        call_contract c c.governance call gas_limit_vote
          (vote_sent c.governance.para_id c.governance.address dispute_id vote_round) s
    ok (record s1 {
      governance = record s1.governance {
        vote_info =
            set₂ dispute_id vote_round (some (record vote { sent = true })) s1.governance.vote_info;
        pending_votes = remove dispute_id s1.governance.pending_votes;
      };
    })

  -- A vote that cannot be sent is passed over, and changes nothing.
  unfoldable pub send_all : List Pending → ℕ → Pallet W → Pallet W × ℕ
  send_all [] sent s = (s, sent)
  send_all (p ∷ ps) sent s = send_all ps (saturating_inc u32_max sent) (ok_value (send_vote p s) s)

  -- `do_send_votes`: the state, and the number of votes taken up.
  unfoldable pub do_send_votes : ℕ → ℕ → Pallet W → Pallet W × ℕ
  do_send_votes timestamp max s = send_all (due_votes timestamp max s.governance.pending_votes) 0 s

  unfoldable pub send_votes : Origin → ℕ → Pallet W → Result (Pallet W)
  send_votes origin max_votes s = do
    _ ← ensure_signed origin
    ok (do_send_votes s.now max_votes s).0
