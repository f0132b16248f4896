-- ===== src/Governance/Dispute/Removes.antt =====
-- What a dispute does to the oracle: `begin_dispute` of src/lib.rs.
use tellor_pallet.Base.{
  ℕ, ◌+◌, ◌<◌, ◌≤◌, ◌≡◌, refl, ◌∙◌, ◌⊎◌, true, some, unwrap_or, set, set₂, List, Option, arith, inl,
  inr, ◌==◌, Bool-cases,
}
use tellor_pallet.Base.Machine.{u32_max}
use tellor_pallet.Types.{Bytes, Event, ok, Result-cases, Origin, ensure_signed, Dispute}
use tellor_pallet.Config.{Config, ContractLocation, Instruction}
use tellor_pallet.State.{Pallet}
use tellor_pallet.Xcm.{send_xcm, call_contract}
use tellor_pallet.Oracle.Invariant.{IsOracle}
use tellor_pallet.Oracle.Submit.{submit_value}
use tellor_pallet.Oracle.Submit.Order.{submit_value-IsOracle}
use tellor_pallet.Oracle.Remove.{remove_value}
use tellor_pallet.Oracle.Remove.Order.{remove_value-IsOracle}
use tellor_pallet.Governance.Dispute.{
  begin_dispute, next_round, open_dispute, reopen_dispute, enter_round, dispute_id_of,
}

-- The same oracle, at the same time.
abbrev pub SameOracle : {W : Type 0} → Pallet W → Pallet W → Type 0
SameOracle s s' = (s'.oracle ≡ s.oracle) × (s'.now ≡ s.now)

module _ {W : Type 0} (c : Config W) where
  sent-SameOracle :
      (para_id : ℕ) (message : List Instruction) (event : Event) (s s' : Pallet W)
      → send_xcm c para_id message event s ≡ ok s'
      → (s'.oracle ≡ s.oracle) × (s'.now ≡ s.now)
  unfolding send_xcm
  sent-SameOracle para_id message event s s' e = ground arith

  call-SameOracle :
      (contract : ContractLocation) (call_data : Bytes) (gas_limit : ℕ) (event : Event)
      (s s' : Pallet W)
      → call_contract c contract call_data gas_limit event s ≡ ok s'
      → (s'.oracle ≡ s.oracle) × (s'.now ≡ s.now)
  unfolding call_contract
  call-SameOracle contract call_data gas_limit event s s' e = grind (arith, sent-SameOracle)

  enter-SameOracle :
      (dispute_id round fee initiator : ℕ) (s s' : Pallet W)
      → enter_round c dispute_id round fee initiator s ≡ ok s'
      → (s'.oracle ≡ s.oracle) × (s'.now ≡ s.now)
  unfolding enter_round
  enter-SameOracle dispute_id round fee initiator s s' e = ground arith

  reopen-SameOracle :
      (dispute_id round fee : ℕ) (dispute : Dispute) (s s' : Pallet W)
      → reopen_dispute c dispute_id round s ≡ ok (s', dispute, fee)
      → (s'.oracle ≡ s.oracle) × (s'.now ≡ s.now)
  unfolding reopen_dispute
  reopen-SameOracle dispute_id round fee dispute s s' e = ground arith

  -- The first round removes the value.
  abbrev pub Removes : ℕ → ℕ → Pallet W → Pallet W → Type 0
  Removes query_id timestamp s s' =
      (z : Pallet W) × (z' : Pallet W) × (n : ℕ) × (z.oracle ≡ s.oracle)
      × (z.now ≡ s.now)
      × (remove_value c query_id timestamp z ≡ ok (z', n))
      × (s'.oracle ≡ z'.oracle)
      × (s'.now ≡ z'.now)

  open-Removes :
      (dispute_id query_id timestamp fee : ℕ) (dispute : Dispute) (s s' : Pallet W)
      → open_dispute c dispute_id query_id timestamp s ≡ ok (s', dispute, fee)
      → Removes query_id timestamp s s'
  unfolding open_dispute
  open-Removes dispute_id query_id timestamp fee dispute s s' e =
      let g = s.governance in
      let z : Pallet W = record s {
        governance = record g {
          open_disputes_on_id =
              set query_id (some (unwrap_or (g.open_disputes_on_id query_id) 0 + 1))
                g.open_disputes_on_id;
          dispute_ids_by_reporter =
              set₂ dispute.disputed_reporter dispute_id true g.dispute_ids_by_reporter;
          dispute_info = set dispute_id (some dispute) g.dispute_info;
        };
      } in
      elim (Result-cases (remove_value c query_id timestamp z)) [
        | inr (x, failed) ↦ absurd (ground arith)
        | inl ((z', n), removed) ↦
            let same : s' ≡ z' = ground arith in
            (z, z', n, refl, refl, removed, rw same refl, rw same refl)
      ]

  pub begin_dispute-oracle :
      (origin : Origin) (query_id timestamp : ℕ) (beneficiary : Option ℕ) (s s' : Pallet W)
      → begin_dispute c origin query_id timestamp beneficiary s ≡ ok s'
      → SameOracle s s' ⊎ Removes query_id timestamp s s'
  unfolding begin_dispute
  begin_dispute-oracle origin query_id timestamp beneficiary s s' e =
      let id = dispute_id_of c query_id timestamp in
      elim (Result-cases (ensure_signed origin)) [
        | inr (x, failed) ↦ absurd (ground arith)
        | inl (initiator, signer) ↦
            elim (Result-cases (next_round c (s.governance.vote_rounds id))) [
              | inr (x, failed) ↦ absurd (ground arith)
              | inl (round, er) ↦ elim (Bool-cases (round == 1)) [
                | inl first ↦ elim (Result-cases (open_dispute c id query_id timestamp s)) [
                  | inr (x, failed) ↦ absurd (ground arith)
                  | inl ((s1, dispute, fee), opened) ↦
                      elim (Result-cases (enter_round c id round fee initiator s1)) [
                        | inr (x, failed) ↦ absurd (ground arith)
                        | inl (s2, entered) ↦
                            let (z, z', n, before, clock, removed, after, clock') =
                              open-Removes id query_id timestamp fee dispute s s1 opened in
                            let (o2, n2) = enter-SameOracle id round fee initiator s1 s2 entered in
                            let o3 : s'.oracle ≡ s2.oracle = grind (arith, call-SameOracle) in
                            let n3 : s'.now ≡ s2.now = grind (arith, call-SameOracle) in
                            inr
                              (z, z', n, before, clock, removed, o3 ∙ o2 ∙ after, n3 ∙ n2 ∙ clock')
                      ]
                ]
                | inr later ↦ elim (Result-cases (reopen_dispute c id round s)) [
                  | inr (x, failed) ↦ absurd (ground arith)
                  | inl ((s1, dispute, fee), opened) ↦
                      elim (Result-cases (enter_round c id round fee initiator s1)) [
                        | inr (x, failed) ↦ absurd (ground arith)
                        | inl (s2, entered) ↦
                            let (o1, n1) = reopen-SameOracle id round fee dispute s s1 opened in
                            let (o2, n2) = enter-SameOracle id round fee initiator s1 s2 entered in
                            let o3 : s'.oracle ≡ s2.oracle = grind (arith, call-SameOracle) in
                            let n3 : s'.now ≡ s2.now = grind (arith, call-SameOracle) in
                            inl (o3 ∙ o2 ∙ o1, n3 ∙ n2 ∙ n1)
                      ]
                ]
              ]
            ]
      ]

  begin_dispute-IsOracle :
      (origin : Origin) (query_id timestamp : ℕ) (beneficiary : Option ℕ) (s s' : Pallet W)
      → IsOracle s.oracle s.now
      → s.oracle.reported_timestamp_count query_id + c.max_disputed_time_series < u32_max
      → begin_dispute c origin query_id timestamp beneficiary s ≡ ok s'
      → IsOracle s'.oracle s'.now
  begin_dispute-IsOracle origin query_id timestamp beneficiary s s' v room e =
      elim (begin_dispute-oracle origin query_id timestamp beneficiary s s' e) [
        | inl (same, clock) ↦ rw (same, clock) v
        | inr (z, z', n, before, clock, removed, after, clock') ↦
            rw (after, clock')
              (remove_value-IsOracle c query_id timestamp n z z' (rw (before, clock) v)
                (rw before room) removed)
      ]

  -- One call that is accepted, or the passing of time. A series that is written is not full.
  pub data Step : Pallet W → Pallet W → Type 0 where
    submitted :
        {s s' : Pallet W} (origin : Origin) (query_id nonce : ℕ) (value query_data : Bytes)
        → s.oracle.reported_timestamp_count query_id < u32_max
        → submit_value c origin query_id value nonce query_data s ≡ ok s'
        → Step s s'
    disputed :
        {s s' : Pallet W} (origin : Origin) (query_id timestamp : ℕ) (beneficiary : Option ℕ)
        → s.oracle.reported_timestamp_count query_id + c.max_disputed_time_series < u32_max
        → begin_dispute c origin query_id timestamp beneficiary s ≡ ok s'
        → Step s s'
    waited :
        {s : Pallet W} (now block_number : ℕ)
        → s.now ≤ now
        → Step s (record s { now = now; block_number = block_number })

  -- A sequence of such steps.
  pub data History (s : Pallet W) : Pallet W → Type 0 where
    begin : History s s
    then_ : {z z' : Pallet W} → History s z → Step z z' → History s z'

  Step-IsOracle :
      (s s' : Pallet W) → IsOracle s.oracle s.now → Step s s' → IsOracle s'.oracle s'.now
  Step-IsOracle s s' v (submitted origin query_id nonce value query_data room e) =
      submit_value-IsOracle c origin query_id nonce value query_data s s' v room e
  Step-IsOracle s s' v (disputed origin query_id timestamp beneficiary room e) =
      begin_dispute-IsOracle origin query_id timestamp beneficiary s s' v room e
  Step-IsOracle s s' v (waited now block_number h) = record {
    ordered = v.ordered;
    clock = λ q i t e. omega (arith, h, v.clock q i t e);
  }

  -- Where the oracle has its invariant, it has it after any sequence of accepted submissions and
  -- disputes, at times that do not go back, as long as a series has fewer than 2^32 - 1 reports
  -- before a submission to it, and the count of reports and the limit of the loop together stay
  -- below that before a dispute.
  pub History-IsOracle :
      (s z : Pallet W) → IsOracle s.oracle s.now → History s z → IsOracle z.oracle z.now
  History-IsOracle s z v begin = v
  History-IsOracle s z v (then_ h step) = Step-IsOracle _ z (History-IsOracle s _ v h) step
