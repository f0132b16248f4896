-- ===== src/Oracle/After/Correct.antt =====
-- The search after a time finds what a scan of the series finds: `get_index_for_data_after` of
-- src/impls.rs.
use tellor_pallet.Base.{
  ℕ, false, true, suc, ◌+◌, ◌-◌, ◌≤◌, ◌<◌, ◌≡◌, refl, sym, ◌∙◌, none, some, ◌==◌, leb, ltb, arith,
  inl, inr, Bool-cases, eq_cases,
}
use tellor_pallet.Base.Machine.{u32_max}
use tellor_pallet.Oracle.Series.{Series, IsSeries}
use tellor_pallet.Oracle.After.{get_index_for_data_after, after_fuel, settle_after, time_or_zero}
use tellor_pallet.Oracle.Invariant.{index_lt_count}
use tellor_pallet.Oracle.After.Scan.{first_index_after, after_older, settle_after-scan}
use tellor_pallet.Oracle.After.Rounds.{Candidate, loop_lem, not_later_before}

module _ (s : Series) (v : IsSeries s) (timestamp : ℕ) (fits : s.count + s.count ≤ u32_max) where
  -- Where the last report is not later, the scan finds none.
  scan-none :
      (n k t : ℕ)
      → suc k ≡ s.count
      → n ≡ s.count
      → s.timestamps k ≡ some t
      → t ≤ timestamp
      → first_index_after s timestamp n 0 ≡ none
  unfolding first_index_after
  scan-none n k t last all e old =
      after_older s v timestamp n 0 0 (suc k) (omega arith) (omega arith) (omega arith)
        (not_later_before s v timestamp k t e old)

  -- From a candidate, the search takes what the scan of all reports finds.
  Candidate-scan :
      (m t n : ℕ)
      → n ≡ s.count
      → Candidate s v timestamp m t
      → m < s.count
      → settle_after s (s.count - 1) (m, t) ≡ first_index_after s timestamp n 0
  Candidate-scan m t n all c inside =
      settle_after-scan s v timestamp m t (s.count - m) (omega arith) inside (omega arith) c.here
        c.late
      ∙ sym (
          after_older s v timestamp n 0 (s.count - m) m (omega arith) (omega arith) (omega arith)
            c.first)

  -- The search on a series that is not empty.
  search_branches :
      (k : ℕ)
      → s.count ≡ suc k
      → get_index_for_data_after s timestamp ≡ first_index_after s timestamp s.count 0
  unfolding get_index_for_data_after
  search_branches k some_count =
      let (t, r, et, reported, index) = v.listed k (omega arith) in
      let (u, q, eu, reported0, index0) = v.listed 0 (omega arith) in
      let time_k : time_or_zero s (s.count - 1) ≡ t =
        let e : s.count - 1 ≡ k = omega arith in rw (e, et) refl in
      let time_0 : time_or_zero s 0 ≡ u = rw eu refl in
      let filled : (s.count == 0) ≡ false = ground arith in
      elim (Bool-cases (leb t timestamp)) [
        | inl old ↦
            rw (filled, time_k, old)
              (sym (scan-none s.count k t (omega arith) refl et (ground arith)))
        | inr young ↦ elim (Bool-cases (ltb timestamp u)) [
          | inl first ↦
              rw (filled, time_k, young, time_0, first)
                (Candidate-scan 0 u s.count refl
                  (record {
                    here = eu;
                    late = ground arith;
                    first = λ j x lt e. absurd (omega arith);
                  })
                  (omega arith))
          | inr later ↦
              let (m, x, done, found) =
                loop_lem s v timestamp 32 after_fuel 0 (s.count - 1) fits
                  (record {
                    lower = u;
                    upper = t;
                    starts = eu;
                    older = ground arith;
                    ends = let e : s.count - 1 ≡ k = omega arith in rw e et;
                    newer = ground arith;
                  })
                  (omega arith) (omega arith) in
              rw (filled, time_k, young, time_0, later, done)
                (Candidate-scan m x s.count refl found (index_lt_count s v m x found.here))
        ]
      ]

-- On an empty series neither finds a report.
search_empty :
    (s : Series) (timestamp : ℕ)
    → s.count ≡ 0
    → get_index_for_data_after s timestamp ≡ first_index_after s timestamp s.count 0
unfolding get_index_for_data_after first_index_after
search_empty s timestamp empty =
    let filled : (s.count == 0) ≡ true = ground arith in
    let none_found : first_index_after s timestamp s.count 0 ≡ none = rw empty refl in
    rw (filled, none_found) refl

-- On a well-formed series of at most 2^31 - 1 reports, the search for the first index whose report
-- is later than a time and not disputed finds what a scan of all indices finds (none if there is no
-- such index).
pub index_after-scan :
    (s : Series) (timestamp : ℕ)
    → IsSeries s
    → s.count + s.count ≤ u32_max
    → get_index_for_data_after s timestamp ≡ first_index_after s timestamp s.count 0
index_after-scan s timestamp v fits = elim (eq_cases s.count 0) [
  | inl empty ↦ search_empty s timestamp empty
  | inr filled ↦ search_branches s v timestamp fits (s.count - 1) (omega arith)
]
