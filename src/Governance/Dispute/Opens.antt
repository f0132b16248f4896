-- ===== src/Governance/Dispute/Opens.antt =====
-- The round that `begin_dispute` of src/lib.rs opens.
use tellor_pallet.Base.{
  ℕ, ◌+◌, ◌*◌, ◌≤◌, ◌≡◌, ◌≢◌, refl, sym, ◌∙◌, ap, false, Option, some, arith, inl, inr, ◌==◌,
  Bool-cases, set, set₂, unwrap_or, true,
}
use tellor_pallet.Types.{ok, Result-cases, Origin, signed, ensure_signed, Dispute, Vote}
use tellor_pallet.Config.{Config}
use tellor_pallet.State.{Governance, Pallet}
use tellor_pallet.Oracle.Remove.{remove_value}
use tellor_pallet.Governance.Dispute.{
  begin_dispute, next_round, open_dispute, reopen_dispute, enter_round, dispute_id_of,
}
use tellor_pallet.Governance.Send.Once.{call_contract-same}
use tellor_pallet.Governance.Dispute.Bounds.{next_round-bounds, enter_round-vote}

-- The same votes and rounds, at the same dispute fee and time.
pub record SameVotes {W : Type 0} (s s' : Pallet W) : Type 0 where
  pub rounds : s'.governance.vote_rounds ≡ s.governance.vote_rounds
  pub votes : s'.governance.vote_info ≡ s.governance.vote_info
  pub fee : s'.governance.dispute_fee ≡ s.governance.dispute_fee
  pub now : s'.now ≡ s.now

set-other : (i j round : ℕ) (m : ℕ → ℕ) → j ≢ i → set i round m j ≡ m j
set-other i j round m ne = ground arith

module _ {W : Type 0} (c : Config W) where
  removed-same :
      (query_id timestamp n : ℕ) (s s' : Pallet W)
      → remove_value c query_id timestamp s ≡ ok (s', n)
      → (s'.governance ≡ s.governance) × (s'.now ≡ s.now)
  unfolding remove_value
  removed-same query_id timestamp n s s' e = (ground arith, ground arith)

  open-SameVotes :
      (dispute_id query_id timestamp fee : ℕ) (dispute : Dispute) (s s' : Pallet W)
      → open_dispute c dispute_id query_id timestamp s ≡ ok (s', dispute, fee)
      → SameVotes s s'
  unfolding open_dispute
  open-SameVotes dispute_id query_id timestamp fee dispute s s' e =
      let g = s.governance in
      let z : Pallet W = record s {
        governance = record g {
          open_disputes_on_id =
              set query_id (some (unwrap_or (g.open_disputes_on_id query_id) 0 + 1))
                g.open_disputes_on_id;
          dispute_ids_by_reporter =
              set₂ dispute.disputed_reporter dispute_id true g.dispute_ids_by_reporter;
          dispute_info = set dispute_id (some dispute) g.dispute_info;
        };
      } in
      elim (Result-cases (remove_value c query_id timestamp z)) [
        | inr (x, failed) ↦ absurd (ground arith)
        | inl ((z', n), removed) ↦
            let same : s' ≡ z' = ground arith in
            let (kept, clock) = removed-same query_id timestamp n z z' removed in
            record {
              rounds = rw (same, kept) refl;
              votes = rw (same, kept) refl;
              fee = rw (same, kept) refl;
              now = rw (same, clock) refl;
            }
      ]

  reopen-SameVotes :
      (dispute_id round fee : ℕ) (dispute : Dispute) (s s' : Pallet W)
      → reopen_dispute c dispute_id round s ≡ ok (s', dispute, fee)
      → SameVotes s s'
  unfolding reopen_dispute
  reopen-SameVotes dispute_id round fee dispute s s' e = record {
    rounds = ground arith;
    votes = ground arith;
    fee = ground arith;
    now = ground arith;
  }

  -- A dispute that is accepted enters the next round of its identifier.
  pub record Enters (dispute_id initiator : ℕ) (s s' : Pallet W) : Type 0 where
    pub round : ℕ
    pub fee : ℕ
    pub opened : Pallet W
    pub entered : Pallet W
    pub is_next : next_round c (s.governance.vote_rounds dispute_id) ≡ ok round
    pub same : SameVotes s opened
    pub enters : enter_round c dispute_id round fee initiator opened ≡ ok entered
    pub kept : s'.governance ≡ entered.governance

  pub begin_dispute-Enters :
      (origin : Origin) (query_id timestamp : ℕ) (beneficiary : Option ℕ) (s s' : Pallet W)
      → begin_dispute c origin query_id timestamp beneficiary s ≡ ok s'
      → (initiator : ℕ) × (ensure_signed origin ≡ ok initiator)
        × Enters (dispute_id_of c query_id timestamp) initiator s s'
  unfolding begin_dispute
  begin_dispute-Enters origin query_id timestamp beneficiary s s' e =
      let id = dispute_id_of c query_id timestamp in
      elim (Result-cases (ensure_signed origin)) [
        | inr (x, failed) ↦ absurd (ground arith)
        | inl (initiator, signer) ↦
            elim (Result-cases (next_round c (s.governance.vote_rounds id))) [
              | inr (x, failed) ↦ absurd (ground arith)
              | inl (round, er) ↦ elim (Bool-cases (round == 1)) [
                | inl first ↦ elim (Result-cases (open_dispute c id query_id timestamp s)) [
                  | inr (x, failed) ↦ absurd (ground arith)
                  | inl ((s1, dispute, fee), opened) ↦
                      elim (Result-cases (enter_round c id round fee initiator s1)) [
                        | inr (x, failed) ↦ absurd (ground arith)
                        | inl (s2, entered) ↦ (
                          initiator,
                          signer,
                          record {
                            round = round;
                            fee = fee;
                            opened = s1;
                            entered = s2;
                            is_next = er;
                            same = open-SameVotes id query_id timestamp fee dispute s s1 opened;
                            enters = entered;
                            kept = grind (arith, call_contract-same);
                          },
                        )
                      ]
                ]
                | inr later ↦ elim (Result-cases (reopen_dispute c id round s)) [
                  | inr (x, failed) ↦ absurd (ground arith)
                  | inl ((s1, dispute, fee), opened) ↦
                      elim (Result-cases (enter_round c id round fee initiator s1)) [
                        | inr (x, failed) ↦ absurd (ground arith)
                        | inl (s2, entered) ↦ (
                          initiator,
                          signer,
                          record {
                            round = round;
                            fee = fee;
                            opened = s1;
                            entered = s2;
                            is_next = er;
                            same = reopen-SameVotes id round fee dispute s s1 opened;
                            enters = entered;
                            kept = grind (arith, call_contract-same);
                          },
                        )
                      ]
                ]
              ]
            ]
      ]

  enter-others :
      (dispute_id round fee initiator : ℕ) (s s' : Pallet W)
      → enter_round c dispute_id round fee initiator s ≡ ok s'
      → s'.governance.vote_rounds ≡ set dispute_id round s.governance.vote_rounds
  unfolding enter_round
  enter-others dispute_id round fee initiator s s' e = ground arith

  -- A dispute that is accepted opens the round after the last one of its identifier, the twentieth
  -- at most, and no round of another; the vote stored under it carries that round, the signer as
  -- its initiator and the time of now, is neither tallied, sent nor executed, and its fee is ten
  -- times the dispute fee at most.
  pub begin_dispute-round :
      (initiator query_id timestamp : ℕ) (beneficiary : Option ℕ) (s s' : Pallet W)
      → begin_dispute c (signed initiator) query_id timestamp beneficiary s ≡ ok s'
      → (v : Vote) × (s'.governance.vote_info
            (dispute_id_of c query_id timestamp)
            (s.governance.vote_rounds (dispute_id_of c query_id timestamp) + 1)
          ≡ some v)
        × (v.vote_round ≡ s.governance.vote_rounds (dispute_id_of c query_id timestamp) + 1)
        × (v.initiator ≡ initiator)
        × (v.start_date ≡ s.now)
        × (v.tally_date ≡ 0)
        × (v.sent ≡ false)
        × (v.executed ≡ false)
        × (v.fee ≤ s.governance.dispute_fee * 10)
        × (s'.governance.vote_rounds (dispute_id_of c query_id timestamp)
            ≡ s.governance.vote_rounds (dispute_id_of c query_id timestamp) + 1)
        × (s'.governance.vote_rounds (dispute_id_of c query_id timestamp) ≤ 20)
        × ((other : ℕ)
            → other ≢ dispute_id_of c query_id timestamp
            → s'.governance.vote_rounds other ≡ s.governance.vote_rounds other)
  begin_dispute-round initiator query_id timestamp beneficiary s s' e =
      let id = dispute_id_of c query_id timestamp in
      let (who, signer, x) =
        begin_dispute-Enters (signed initiator) query_id timestamp beneficiary s s' e in
      let who_is : who ≡ initiator = ground arith in
      let (next, most) = next_round-bounds c (s.governance.vote_rounds id) x.round x.is_next in
      let (paid, low, asked, pays, last, stored) =
        enter_round-vote c id x.round x.fee who x.opened x.entered x.enters in
      let written = enter-others id x.round x.fee who x.opened x.entered x.enters in
      let k = x.kept in
      let now_rounds = ap (λ (g : Governance). g.vote_rounds id) k ∙ last in
      (
        _,
        ap (λ (g : Governance). g.vote_info id (s.governance.vote_rounds id + 1)) k
            ∙ ap (λ (r : ℕ). x.entered.governance.vote_info id r) (sym next)
            ∙ stored,
        next,
        who_is,
        x.same.now,
        refl,
        refl,
        refl,
        rw (sym x.same.fee) low,
        now_rounds ∙ next,
        omega (arith, now_rounds, most),
        (λ other ne.
            ap (λ (g : Governance). g.vote_rounds other) k
            ∙ ap (λ (m : ℕ → ℕ). m other) written
            ∙ set-other (dispute_id_of c query_id timestamp) other x.round
                x.opened.governance.vote_rounds ne
            ∙ ap (λ (m : ℕ → ℕ). m other) x.same.rounds),
      )
