-- ===== src/Governance/Rounds.antt =====
-- Every stored vote carries the round that it is stored under: `VoteInfo` of src/lib.rs, and the
-- calls that write it.
use tellor_pallet.Base.{
  ℕ, ◌≡◌, refl, sym, ap, ◌∙◌, Bool, true, Option, some, arith, set₂, inl, inr, Option-cases,
  eq_cases, List, [], ◌∷◌,
}
use tellor_pallet.Types.{ok, ok_value, Result-cases, Origin, Vote, VoteResult}
use tellor_pallet.Config.{Config}
use tellor_pallet.State.{Governance, Pallet}
use tellor_pallet.Base.Machine.{saturating_inc, u32_max, u128_max}
use tellor_pallet.Oracle.Series.{get_reports_submitted_by_address}
use tellor_pallet.Governance.Vote.{do_vote, add_to_tally}
use tellor_pallet.Governance.Dispute.{begin_dispute, dispute_id_of, enter_round, new_vote, cap_fee}
use tellor_pallet.Governance.Dispute.Opens.{begin_dispute-Enters}
use tellor_pallet.Governance.Send.{Pending, send_vote, send_all, do_send_votes}
use tellor_pallet.Governance.Send.Once.{call_contract-same}
use mathlib.Core.Path.{subst}
use tellor_pallet.Governance.Outcome.{tally_votes, execute_vote}

abbrev pub CarryRounds : Governance → Type 0
CarryRounds g =
    (dispute_id vote_round : ℕ) (v : Vote)
    → g.vote_info dispute_id vote_round ≡ some v
    → v.vote_round ≡ vote_round

-- A vote that carries its round may be stored under it.
store-CarryRounds :
    (d r : ℕ) (new : Vote) (g g' : Governance)
    → CarryRounds g
    → new.vote_round ≡ r
    → g'.vote_info ≡ set₂ d r (some new) g.vote_info
    → CarryRounds g'
store-CarryRounds d r new g g' h e stored i j v found =
    let here : set₂ d r (some new) g.vote_info i j ≡ some v =
      sym (ap (λ (m : ℕ → ℕ → Option Vote). m i j) stored) ∙ found in
    elim (eq_cases i d) [
      | inr other ↦ h i j v (ground (arith, here))
      | inl same ↦ elim (eq_cases j r) [
        | inr other ↦ h i j v (ground (arith, here))
        | inl same_round ↦
            let new_here : new ≡ v = ground (arith, here) in
            ap (λ (x : Vote). x.vote_round) (sym new_here) ∙ e ∙ sym same_round
      ]
    ]

module _ {W : Type 0} (c : Config W) where
  enter_round-stores :
      (d r fee initiator : ℕ) (s s' : Pallet W)
      → enter_round c d r fee initiator s ≡ ok s'
      → (v : Vote) × (v.vote_round ≡ r)
        × (s'.governance.vote_info ≡ set₂ d r (some v) s.governance.vote_info)
  unfolding enter_round
  enter_round-stores d r fee initiator s s' e = (
    new_vote c d r (cap_fee c.balance_max s.governance.dispute_fee fee) initiator s,
    refl,
    ground arith,
  )

  do_vote-stores :
      (voter d : ℕ) (supports : Option Bool) (s s' : Pallet W)
      → do_vote c voter d supports s ≡ ok s'
      → (v v' : Vote) × (s.governance.vote_info d (s.governance.vote_rounds d) ≡ some v)
        × (v'.vote_round ≡ v.vote_round)
        × (s'.governance.vote_info
            ≡ set₂ d (s.governance.vote_rounds d) (some v') s.governance.vote_info)
  unfolding do_vote
  do_vote-stores voter d supports s s' e =
      elim (Option-cases (s.governance.vote_info d (s.governance.vote_rounds d))) [
        | inl missing ↦ absurd (ground arith)
        | inr (v, found) ↦ (
          v,
          record v {
            reporters =
                add_to_tally u128_max supports (get_reports_submitted_by_address s.staking voter)
                  v.reporters;
            users = add_to_tally c.balance_max supports (s.autopay.user_tips_total voter) v.users;
          },
          found,
          refl,
          ground arith,
        )
      ]

  tally_votes-stores :
      (d : ℕ) (result : VoteResult) (s s' : Pallet W)
      → tally_votes c d result s ≡ ok s'
      → (v v' : Vote) × (s.governance.vote_info d (s.governance.vote_rounds d) ≡ some v)
        × (v'.vote_round ≡ v.vote_round)
        × (s'.governance.vote_info
            ≡ set₂ d (s.governance.vote_rounds d) (some v') s.governance.vote_info)
  unfolding tally_votes
  tally_votes-stores d result s s' e =
      elim (Option-cases (s.governance.vote_info d (s.governance.vote_rounds d))) [
        | inl missing ↦ absurd (ground arith)
        | inr (v, found) ↦
            (v, record v { result = some result; tally_date = s.now }, found, refl, ground arith)
      ]

  execute_vote-stores :
      (d n : ℕ) (s s' : Pallet W)
      → execute_vote c d s ≡ ok (s', n)
      → (v v' : Vote) × (s.governance.vote_info d (s.governance.vote_rounds d) ≡ some v)
        × (v'.vote_round ≡ v.vote_round)
        × (s'.governance.vote_info
            ≡ set₂ d (s.governance.vote_rounds d) (some v') s.governance.vote_info)
  unfolding execute_vote
  execute_vote-stores d n s s' e =
      elim (Option-cases (s.governance.vote_info d (s.governance.vote_rounds d))) [
        | inl missing ↦ absurd (ground arith)
        | inr (v, found) ↦ (v, record v { executed = true }, found, refl, ground arith)
      ]

  send_vote-CarryRounds :
      (p : Pending) (s s' : Pallet W)
      → send_vote c p s ≡ ok s'
      → CarryRounds s.governance
      → CarryRounds s'.governance
  unfolding send_vote
  send_vote-CarryRounds (d, (r, date)) s s' e h = elim (Option-cases (s.governance.vote_info d r)) [
    | inl missing ↦ absurd (ground arith)
    | inr (v, found) ↦
        let stored : s'.governance.vote_info
            ≡ set₂ d r (some (record v { sent = true })) s.governance.vote_info =
          grind (arith, call_contract-same) in
        store-CarryRounds d r (record v { sent = true }) s.governance s'.governance h
          (h d r v found) stored
  ]

  send_all-CarryRounds :
      (ps : List Pending) (n : ℕ) (s : Pallet W)
      → CarryRounds s.governance
      → CarryRounds (send_all c ps n s).0.governance
  unfolding send_all
  send_all-CarryRounds [] n s h = h
  send_all-CarryRounds (p ∷ ps) n s h =
      send_all-CarryRounds ps (saturating_inc u32_max n) (ok_value (send_vote c p s) s)
        (elim (Result-cases (send_vote c p s)) [
          | inr (x, failed) ↦ rw failed h
          | inl (s1, e) ↦ rw e (send_vote-CarryRounds p s s1 e h)
        ])

  -- The calls that write votes, where they are accepted, and whatever leaves the votes alone. Both
  -- `send_votes` and `on_initialize` send votes by `do_send_votes`.
  pub data Change (s s' : Pallet W) : Type 0 where
    disputed :
        (origin : Origin) (query_id timestamp : ℕ) (beneficiary : Option ℕ)
        → begin_dispute c origin query_id timestamp beneficiary s ≡ ok s'
        → Change s s'
    sent : (timestamp max : ℕ) → (do_send_votes c timestamp max s).0 ≡ s' → Change s s'
    apart : s'.governance.vote_info ≡ s.governance.vote_info → Change s s'
    cast :
        (voter d : ℕ) (supports : Option Bool) → do_vote c voter d supports s ≡ ok s' → Change s s'
    tallied : (d : ℕ) (result : VoteResult) → tally_votes c d result s ≡ ok s' → Change s s'
    executed : (d n : ℕ) → execute_vote c d s ≡ ok (s', n) → Change s s'

  Change-CarryRounds :
      (s s' : Pallet W) → CarryRounds s.governance → Change s s' → CarryRounds s'.governance
  unfolding do_send_votes
  Change-CarryRounds s s' h (disputed origin query_id timestamp beneficiary e) =
      let (initiator, signer, x) =
        begin_dispute-Enters c origin query_id timestamp beneficiary s s' e in
      let id = dispute_id_of c query_id timestamp in
      let (v, round, stored) =
        enter_round-stores id x.round x.fee initiator x.opened x.entered x.enters in
      store-CarryRounds id x.round v s.governance s'.governance h round (
        ap (λ (g : Governance). g.vote_info) x.kept
        ∙ stored
        ∙ ap (λ (m : ℕ → ℕ → Option Vote). set₂ id x.round (some v) m) x.same.votes)
  Change-CarryRounds s s' h (sent timestamp max e) =
      subst (λ z. CarryRounds z.governance) e (send_all-CarryRounds _ 0 s h)
  Change-CarryRounds s s' h (apart same) = λ (d r : ℕ) (v : Vote) found.
      h d r v (sym (ap (λ (m : ℕ → ℕ → Option Vote). m d r) same) ∙ found)
  Change-CarryRounds s s' h (cast voter d supports e) =
      let (v, v', found, same, stored) = do_vote-stores voter d supports s s' e in
      store-CarryRounds d (s.governance.vote_rounds d) v' s.governance s'.governance h
        (same ∙ h d (s.governance.vote_rounds d) v found) stored
  Change-CarryRounds s s' h (tallied d result e) =
      let (v, v', found, same, stored) = tally_votes-stores d result s s' e in
      store-CarryRounds d (s.governance.vote_rounds d) v' s.governance s'.governance h
        (same ∙ h d (s.governance.vote_rounds d) v found) stored
  Change-CarryRounds s s' h (executed d n e) =
      let (v, v', found, same, stored) = execute_vote-stores d n s s' e in
      store-CarryRounds d (s.governance.vote_rounds d) v' s.governance s'.governance h
        (same ∙ h d (s.governance.vote_rounds d) v found) stored

  -- Any number of such steps.
  pub data History (s : Pallet W) : Pallet W → Type 0 where
    start : History s s
    call : (s1 s2 : Pallet W) → History s s1 → Change s1 s2 → History s s2

  -- Where every stored vote carries the round that it is stored under, this stays so through any
  -- sequence of disputes begun, ballots cast, votes sent, tallied and executed, and steps that
  -- leave the votes alone.
  pub History-CarryRounds :
      (s s' : Pallet W) → CarryRounds s.governance → History s s' → CarryRounds s'.governance
  History-CarryRounds s _ h start = h
  History-CarryRounds s _ h (call s1 s2 before change) =
      Change-CarryRounds s1 s2 (History-CarryRounds s s1 h before) change
