-- ===== src/Governance/Dispute/Forever.antt =====
-- A value that was removed never comes back: `remove_value`, `submit_value` and `begin_dispute`.
use tellor_pallet.Base.{
  ℕ, zero, suc, ◌+◌, ◌-◌, ◌≡◌, refl, true, Option, none, some, arith, inl, inr, ltb, set, set₂,
  Bool-cases, Option-cases, eq_cases,
}
use tellor_pallet.Base.Machine.{u32_max, saturating_inc, saturating_add}
use tellor_pallet.Types.{Bytes, ok, Report, Result-cases}
use tellor_pallet.Config.{Config}
use tellor_pallet.State.{Oracle, Pallet}
use tellor_pallet.Oracle.Series.{series, is_in_dispute, retrieve_data}
use tellor_pallet.Oracle.Remove.Unread.{Unread, none-Unread}
use tellor_pallet.Oracle.Submit.{record_report}
use tellor_pallet.Oracle.Submit.Order.{submitted}
use tellor_pallet.Oracle.Remove.{remove_value, remove_report, repoint}
use tellor_pallet.Governance.Dispute.Removes.{
  begin_dispute-oracle, History, begin, then_, Step, disputed, waited,
}

-- The report at a time is disputed.
abbrev Disputed : (ℕ → Option Report) → ℕ → Type 0
Disputed reports t = (r : Report) × (reports t ≡ some r) × (r.is_disputed ≡ true)

-- The value was removed: its report is disputed, and it cannot be retrieved.
abbrev pub Gone : ℕ → ℕ → Oracle → Type 0
Gone query_id t o =
    (retrieve_data o query_id t ≡ none)
    × ((r : Report) × (o.reports query_id t ≡ some r) × (r.is_disputed ≡ true))

set-Disputed :
    (w t : ℕ) (next : Report) (previous : Option ℕ) (reports : ℕ → Option Report)
    → reports w ≡ some next
    → Disputed reports t
    → Disputed (set w (some (record next { previous = previous })) reports) t
set-Disputed w t next previous reports e (r, listed, bad) = elim (eq_cases t w) [
  | inl same ↦ (record next { previous = previous }, ground arith, ground arith)
  | inr other ↦ (r, ground arith, bad)
]

repoint-Disputed :
    (rounds max : ℕ) (timestamps : ℕ → Option ℕ) (previous : Option ℕ) (i iterations t n : ℕ)
    (reports result : ℕ → Option Report)
    → Disputed reports t
    → repoint rounds max timestamps previous i iterations reports ≡ ok (result, n)
    → Disputed result t
unfolding repoint
repoint-Disputed zero max timestamps previous i iterations t n reports result x e =
    let same : result ≡ reports = cc in rw same x
repoint-Disputed (suc rounds) max timestamps previous i iterations t n reports result x e =
    elim (Bool-cases (ltb max (saturating_inc u32_max iterations))) [
      | inl over ↦ absurd (ground arith)
      | inr under ↦ elim (Option-cases (timestamps i)) [
        | inl end_ ↦ let same : result ≡ reports = ground arith in rw same x
        | inr (w, listed) ↦ elim (Option-cases (reports w)) [
          | inl missing ↦ absurd (ground arith)
          | inr (next, known) ↦
              let y = set-Disputed w t next previous reports known x in
              elim (Bool-cases next.is_disputed) [
                | inr stands ↦
                    let same : result ≡ set w (some (record next { previous = previous })) reports =
                      ground arith in
                    rw same y
                | inl bad ↦
                    repoint-Disputed rounds max timestamps previous (i + 1)
                      (saturating_inc u32_max iterations) t n
                      (set w (some (record next { previous = previous })) reports) result y
                      (ground arith)
              ]
        ]
      ]
    ]

-- A removal of any value of any query identifier keeps what is gone.
remove_report-Gone :
    (max query_id timestamp n q t : ℕ) (o o' : Oracle)
    → Gone q t o
    → remove_report max query_id timestamp o ≡ ok (o', n)
    → Gone q t o'
unfolding remove_report
remove_report-Gone max query_id timestamp n q t o o' (none_, (r, listed, bad)) e =
    elim (Option-cases (o.reports query_id timestamp)) [
      | inl missing ↦ absurd (ground arith)
      | inr (report, known) ↦
          elim (Result-cases (
            repoint (saturating_add u32_max (report.index + 1) max + 1 - (report.index + 1)) max
              (o.reported_timestamps_by_index query_id) report.previous (report.index + 1) 0
              (o.reports query_id))) [
                | inr (x, failed) ↦ absurd (ground arith)
                | inl ((reports, m), done) ↦
                    let written : o'.reports
                        ≡ set query_id
                            (set timestamp (some (record report { is_disputed = true })) reports)
                            o.reports =
                      ground arith in
                    let values : o'.reported_values_by_timestamp
                        ≡ set₂ query_id timestamp none o.reported_values_by_timestamp =
                      ground arith in
                    (
                      rw values (ground arith),
                      elim (eq_cases q query_id) [
                        | inr other ↦ (r, rw written (ground arith), bad)
                        | inl same ↦ elim (eq_cases t timestamp) [
                          | inl same_time ↦ (
                            record report { is_disputed = true },
                            rw written (ground arith),
                            refl,
                          )
                          | inr later ↦
                              let (r', listed', bad') =
                                repoint-Disputed _ max (o.reported_timestamps_by_index query_id)
                                  report.previous (report.index + 1) 0 t m (o.reports query_id)
                                  reports (r, rw same at listed, bad) done in
                              (r', rw written (ground arith), bad')
                        ]
                      ],
                    )
              ]
    ]

module _ {W : Type 0} (c : Config W) where
  remove_value-Gone :
      (query_id timestamp n q t : ℕ) (s s' : Pallet W)
      → Gone q t s.oracle
      → remove_value c query_id timestamp s ≡ ok (s', n)
      → Gone q t s'.oracle
  unfolding remove_value
  remove_value-Gone query_id timestamp n q t s s' x e =
      elim (Result-cases (remove_report c.max_disputed_time_series query_id timestamp s.oracle)) [
        | inr (y, failed) ↦ absurd (ground arith)
        | inl ((o, m), done) ↦
            let same : s'.oracle ≡ o = ground arith in
            rw same (
              remove_report-Gone c.max_disputed_time_series query_id timestamp m q t s.oracle o x
                done)
      ]

  removed-Gone :
      (query_id t n : ℕ) (s s' : Pallet W)
      → remove_value c query_id t s ≡ ok (s', n)
      → Gone query_id t s'.oracle
  unfolding remove_value remove_report
  removed-Gone query_id t n s s' e = elim (Option-cases (s.oracle.reports query_id t)) [
    | inl missing ↦ absurd (ground arith)
    | inr (report, known) ↦
        (ground arith, (record report { is_disputed = true }, ground arith, refl))
  ]

  record_report-Gone :
      (query_id timestamp block_number reporter q t : ℕ) (value : Bytes) (o : Oracle)
      → Gone q t o
      → o.reports query_id timestamp ≡ none
      → Gone q t (record_report query_id timestamp block_number value reporter o)
  unfolding record_report
  record_report-Gone query_id timestamp block_number reporter q t value o (none_, (r, listed, bad))
        new =
      elim (eq_cases q query_id) [
        | inr other ↦ (ground arith, (r, ground arith, bad))
        | inl same ↦ elim (eq_cases t timestamp) [
          | inr later ↦ (ground arith, (r, ground arith, bad))
          | inl same_time ↦ absurd (ground arith)
        ]
      ]

  History-Gone : (q t : ℕ) (s z : Pallet W) → Gone q t s.oracle → History c s z → Gone q t z.oracle
  History-Gone q t s z x begin = x
  History-Gone q t s z x (then_ h (Step.submitted origin query_id nonce value query_data room e)) =
      let (reporter, written, new, clock) =
        submitted c origin query_id nonce value query_data _ z e in
      rw written
        (record_report-Gone query_id _ _ reporter q t value _ (History-Gone q t s _ x h) new)
  History-Gone q t s z x (then_ h (disputed origin query_id timestamp beneficiary room e)) =
      let y = History-Gone q t s _ x h in
      elim (begin_dispute-oracle c origin query_id timestamp beneficiary _ z e) [
        | inl (same, clock) ↦ rw same y
        | inr (a, b, n, before, clock, removed, after, clock') ↦
            rw after (remove_value-Gone query_id timestamp n q t a b (rw before y) removed)
      ]
  History-Gone q t s z x (then_ h (waited now block_number le)) = History-Gone q t s _ x h

  -- After a removal that is accepted, and any sequence of accepted submissions and disputes after
  -- it, at times that do not go back, in series that are not full, the value is disputed, cannot be
  -- retrieved, and is read neither as the last one before any time, nor as the first one after any
  -- time, nor among the values of any period.
  pub remove_value-forever :
      (query_id t n : ℕ) (s s' z : Pallet W)
      → remove_value c query_id t s ≡ ok (s', n)
      → History c s' z
      → (retrieve_data z.oracle query_id t ≡ none)
        × (is_in_dispute (series z.oracle query_id) t ≡ true)
        × Unread z.oracle query_id t
  remove_value-forever query_id t n s s' z e h =
      let (none_, bad) = History-Gone query_id t s' z (removed-Gone query_id t n s s' e) h in
      (none_, ground arith, none-Unread z.oracle query_id t none_)
