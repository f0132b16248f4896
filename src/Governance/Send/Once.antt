-- ===== src/Governance/Send/Once.antt =====
-- A vote is sent once: `do_send_votes` of src/impls.rs.
use tellor_pallet.Base.{
  ℕ, ◌≡◌, refl, ◌∙◌, true, Option, some, List, [], ◌∷◌, arith, set₂, set₂-self, inl, inr, eq_cases,
  Option-cases,
}
use tellor_pallet.Base.Machine.{saturating_inc, u32_max}
use tellor_pallet.Types.{
  Bytes, Event, Vote, ok, err, ok_value, DispatchError, Result-cases, vote_already_sent,
}
use tellor_pallet.Config.{Config, ContractLocation, Instruction}
use tellor_pallet.State.{Pallet}
use tellor_pallet.Xcm.{call_contract, send_xcm}
use tellor_pallet.Governance.Send.{Pending, send_vote, send_all, do_send_votes, due_votes}

-- The vote of a round of a dispute has been sent.
abbrev pub Sent : {W : Type 0} → ℕ → ℕ → Pallet W → Type 0
Sent dispute_id vote_round s =
    (vote : Vote) × (s.governance.vote_info dispute_id vote_round ≡ some vote) × (vote.sent ≡ true)

-- What sending leaves alone.
pub record SameElsewhere {W : Type 0} (s s' : Pallet W) : Type 0 where
  pub staking : s'.staking ≡ s.staking
  pub oracle : s'.oracle ≡ s.oracle
  pub dispute_fee : s'.governance.dispute_fee ≡ s.governance.dispute_fee

-- Marking a vote as sent keeps those that are.
set₂-Sent :
    (d r dispute_id vote_round : ℕ) (vote : Vote) (votes : ℕ → ℕ → Option Vote)
    → (v : Vote) × (votes d r ≡ some v) × (v.sent ≡ true)
    → (v : Vote) × (set₂ dispute_id vote_round (some (record vote { sent = true })) votes d r
        ≡ some v)
      × (v.sent ≡ true)
set₂-Sent d r dispute_id vote_round vote votes (v, listed, sent) = elim (eq_cases d dispute_id) [
  | inr other ↦ (v, ground arith, sent)
  | inl same_id ↦ elim (eq_cases r vote_round) [
    | inr other ↦ (v, ground arith, sent)
    | inl same_round ↦ (record vote { sent = true }, ground arith, refl)
  ]
]

module _ {W : Type 0} (c : Config W) where
  send_xcm-same :
      (para_id : ℕ) (message : List Instruction) (event : Event) (s s' : Pallet W)
      → send_xcm c para_id message event s ≡ ok s'
      → (s'.governance ≡ s.governance) × (s'.staking ≡ s.staking) × (s'.oracle ≡ s.oracle)
  unfolding send_xcm
  send_xcm-same para_id message event s s' e = ground arith

  -- The call of a contract changes the queues and the events alone.
  pub call_contract-same :
      (contract : ContractLocation) (call_data : Bytes) (gas_limit : ℕ) (event : Event)
      (s s' : Pallet W)
      → call_contract c contract call_data gas_limit event s ≡ ok s'
      → (s'.governance ≡ s.governance) × (s'.staking ≡ s.staking) × (s'.oracle ≡ s.oracle)
  unfolding call_contract
  call_contract-same contract call_data gas_limit event s s' e = grind (arith, send_xcm-same)

  -- A vote that is sent is marked as such, and no other vote changes.
  send_vote-Sent :
      (dispute_id vote_round date : ℕ) (s s' : Pallet W)
      → send_vote c (dispute_id, (vote_round, date)) s ≡ ok s'
      → Sent dispute_id vote_round s' × ((d r : ℕ) → Sent d r s → Sent d r s') × SameElsewhere s s'
  unfolding send_vote
  send_vote-Sent dispute_id vote_round date s s' e =
      elim (Option-cases (s.governance.vote_info dispute_id vote_round)) [
        | inl missing ↦ absurd (ground arith)
        | inr (vote, found) ↦
            let votes : s'.governance.vote_info
                ≡ set₂ dispute_id vote_round (some (record vote { sent = true }))
                    s.governance.vote_info =
              grind (arith, call_contract-same) in
            let same : SameElsewhere s s' = record {
              staking = grind (arith, call_contract-same);
              oracle = grind (arith, call_contract-same);
              dispute_fee = grind (arith, call_contract-same);
            } in
            let marked : Sent dispute_id vote_round s' × ((d r : ℕ) → Sent d r s → Sent d r s') =
              rw votes (
                (
                  record vote { sent = true },
                  set₂-self dispute_id vote_round (some (record vote { sent = true }))
                      s.governance.vote_info,
                  refl,
                ),
                (λ d r x. set₂-Sent d r dispute_id vote_round vote s.governance.vote_info x),
              ) in
            (marked.0, marked.1, same)
      ]

  send_vote-refused :
      (dispute_id vote_round date : ℕ) (s : Pallet W)
      → Sent dispute_id vote_round s
      → send_vote c (dispute_id, (vote_round, date)) s
        ≡ err (DispatchError.pallet vote_already_sent)
  unfolding send_vote
  send_vote-refused dispute_id vote_round date s (vote, listed, sent) = rw (listed, sent) refl

  -- A vote that cannot be sent changes nothing.
  ok_value-Sent :
      (p : Pending) (s : Pallet W)
      → SameElsewhere s (ok_value (send_vote c p s) s)
        × ((d r : ℕ) → Sent d r s → Sent d r (ok_value (send_vote c p s) s))
  ok_value-Sent (dispute_id, (vote_round, date)) s =
      elim (Result-cases (send_vote c (dispute_id, (vote_round, date)) s)) [
        | inr (x, failed) ↦
            rw failed (record { staking = refl; oracle = refl; dispute_fee = refl }, λ d r x. x)
        | inl (s1, e) ↦
            let (here, kept, same) = send_vote-Sent dispute_id vote_round date s s1 e in
            rw e (same, kept)
      ]

  send_all-Sent :
      (ps : List Pending) (n : ℕ) (s : Pallet W)
      → SameElsewhere s (send_all c ps n s).0
        × ((d r : ℕ) → Sent d r s → Sent d r (send_all c ps n s).0)
  unfolding send_all
  send_all-Sent [] n s = (record { staking = refl; oracle = refl; dispute_fee = refl }, λ d r x. x)
  send_all-Sent (p ∷ ps) n s =
      let (same, kept) = ok_value-Sent p s in
      let (same', kept') =
        send_all-Sent ps (saturating_inc u32_max n) (ok_value (send_vote c p s) s) in
      (
        record {
          staking = same'.staking ∙ same.staking;
          oracle = same'.oracle ∙ same.oracle;
          dispute_fee = same'.dispute_fee ∙ same.dispute_fee;
        },
        λ d r x. kept' d r (kept d r x),
      )

  pub do_send_votes-same :
      (timestamp max : ℕ) (s : Pallet W) → SameElsewhere s (do_send_votes c timestamp max s).0
  unfolding do_send_votes
  do_send_votes-same timestamp max s =
      (send_all-Sent (due_votes timestamp max s.governance.pending_votes) 0 s).0

  -- The states that calls of `do_send_votes` lead to.
  pub data Sends (s : Pallet W) : Pallet W → Type 0 where
    stay : Sends s s
    sends :
        {z : Pallet W} (timestamp max : ℕ) → Sends s z → Sends s (do_send_votes c timestamp max z).0

  Sends-Sent : (s z : Pallet W) (d r : ℕ) → Sent d r s → Sends s z → Sent d r z
  unfolding do_send_votes
  Sends-Sent s z d r x stay = x
  Sends-Sent s z d r x (sends timestamp max h) =
      (send_all-Sent _ 0 _).1 d r (Sends-Sent s _ d r x h)

  -- A vote that was sent is not sent again: after any number of calls that send the votes due, it
  -- is refused as already sent, whatever its schedule.
  pub send_vote-once :
      (dispute_id vote_round date date' : ℕ) (s s' z : Pallet W)
      → send_vote c (dispute_id, (vote_round, date)) s ≡ ok s'
      → Sends s' z
      → send_vote c (dispute_id, (vote_round, date')) z
        ≡ err (DispatchError.pallet vote_already_sent)
  send_vote-once dispute_id vote_round date date' s s' z e h =
      send_vote-refused dispute_id vote_round date' z (
        Sends-Sent s' z dispute_id vote_round (send_vote-Sent dispute_id vote_round date s s' e).0
          h)
