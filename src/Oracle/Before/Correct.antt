-- ===== src/Oracle/Before/Correct.antt =====
-- The binary search finds what a scan of the series finds.
use tellor_pallet.Base.{
  ℕ, zero, suc, ◌+◌, ◌-◌, ◌≤◌, ◌<◌, ◌≡◌, refl, sym, ap, ◌∙◌, Option, none, some, unwrap_or, ltb,
  leb, arith, inl, inr, Bool-cases, Option-cases, ltb→lt, leb→le, gt→leb,
}
use tellor_pallet.Base.Machine.{saturating_inc, saturate-le, u32_max}
use tellor_pallet.Types.{Report}
use tellor_pallet.Constants.{max_iterations}
use tellor_pallet.Oracle.Series.{
  Series, IsSeries, is_in_dispute, last_index_before, last_undisputed,
}
use tellor_pallet.Oracle.Before.{
  before_loop, search_fuel, index_before_fuel, get_index_for_data_before_with_start,
  get_index_for_data_before,
}
use tellor_pallet.Oracle.Before.Scan.{index_of, scan_newer}
use tellor_pallet.Oracle.Before.Rounds.{Bracket, index_lt_count, Bracket-lt, newer_from, turn_lem}

-- How far apart the bounds may lie for a number of rounds.
abbrev reach : ℕ → ℕ
reach zero = 1
reach (suc k) = reach k + reach k

module _ (s : Series) (v : IsSeries s) (timestamp : ℕ) where
  -- With a fuel of at least `k` the loop ends within `k` rounds, on what the scan finds.
  loop_lem :
      (k fuel start end iterations : ℕ)
      → s.count ≤ u32_max
      → Bracket s v timestamp start end
      → end - start < reach k
      → k ≤ fuel
      → (n : ℕ) × (before_loop fuel s timestamp start end iterations
          ≡ some (last_index_before s timestamp s.count, n))
        × (n ≤ iterations + k)
  unfolding before_loop
  loop_lem zero fuel start end iterations fits b near le =
      let lt = Bracket-lt s v timestamp start end b in absurd (omega arith)
  loop_lem (suc k) zero start end iterations fits b near le = absurd (omega arith)
  loop_lem (suc k) (suc fuel) start end iterations fits b near le =
      let more = saturate-le u32_max (iterations + 1) in
      elim (turn_lem s v timestamp start end fits b) [
        | inl done ↦
            (saturating_inc u32_max iterations, rw (done, before_loop), omega (arith, more))
        | inr (start', end', turn, b', half) ↦
            let (n, found, few) =
              loop_lem k fuel start' end' (saturating_inc u32_max iterations) fits b' (omega arith)
                (omega arith) in
            (n, rw (turn, before_loop) found, omega (arith, more))
      ]

  -- Where no report stands undisputed, the scan finds none.
  scan_none : (n : ℕ) → last_undisputed s n ≡ none → last_index_before s timestamp n ≡ none
  unfolding last_undisputed last_index_before
  scan_none zero e = refl
  scan_none (suc i) e = ground (arith, scan_none i)

  -- The last report that is not disputed, where it is older, is the one that the scan finds.
  scan_last :
      (n t : ℕ)
      → n ≤ s.count
      → last_undisputed s n ≡ some t
      → t < timestamp
      → last_index_before s timestamp n ≡ index_of s v timestamp t
  unfolding last_undisputed last_index_before index_of
  scan_last zero t le e lt = cc
  scan_last (suc i) t le e lt =
      let (u, r, listed, reported, index) = v.listed i le in ground (arith, scan_last i t)

  -- It is one of the reports.
  last_undisputed_listed :
      (n t : ℕ) → last_undisputed s n ≡ some t → (i : ℕ) × (i < n) × (s.timestamps i ≡ some t)
  unfolding last_undisputed
  last_undisputed_listed zero t e = absurd (cc)
  last_undisputed_listed (suc i) t e = elim (Option-cases (s.timestamps i)) [
    | inl gone ↦
        let (j, lt, ej) = last_undisputed_listed i t (rw (gone, last_undisputed) at e) in
        (j, omega arith, ej)
    | inr (u, eu) ↦ elim (Bool-cases (is_in_dispute s u)) [
      | inl disputed ↦
          let (j, lt, ej) = last_undisputed_listed i t (ground arith) in (j, omega arith, ej)
      | inr stands ↦ (i, omega arith, ground arith)
    ]
  ]

  scan_last_index :
      (t : ℕ) (r : Report)
      → s.last_reported_timestamp ≡ some t
      → s.reports t ≡ some r
      → t < timestamp
      → some r.index ≡ last_index_before s timestamp s.count
  unfolding index_of
  scan_last_index t r el er older =
      let e = scan_last s.count t (omega arith) (sym v.last ∙ el) older in ground arith

  index_before_bracketed :
      (t a : ℕ) (r : Report)
      → s.count ≤ u32_max
      → s.last_reported_timestamp ≡ some t
      → s.timestamps 0 ≡ some a
      → a < timestamp
      → s.reports t ≡ some r
      → (n : ℕ) × (index_before_fuel search_fuel s timestamp 0
          ≡ some (last_index_before s timestamp s.count, n))
        × (n ≤ 32)
  unfolding index_before_fuel
  index_before_bracketed t a r fits el ea lt er = elim (Bool-cases (ltb t timestamp)) [
    | inl older ↦ (
      0,
      simp (el, ea, gt→leb timestamp a lt, er, older)
          (ap (λ x. some (x, 0)) (scan_last_index t r el er (ltb→lt t timestamp older))),
      omega arith,
    )
    | inr newer ↦
        let listed = v.reported t r er in
        let bounded = index_lt_count s v timestamp r.index t listed in
        let (n, e, few) =
          loop_lem 32 search_fuel 0 r.index 0 fits
            (record {
              lower = a;
              upper = t;
              starts = ea;
              older = lt;
              ends = listed;
              newer = ground arith;
            })
            (omega arith) (omega arith) in
        (n, simp (el, ea, gt→leb timestamp a lt, er, newer) e, omega arith)
  ]

  scan_zero : (n : ℕ) → n ≡ 0 → last_index_before s timestamp n ≡ none
  unfolding last_index_before
  scan_zero zero e = refl
  scan_zero (suc n) e = absurd (omega arith)

  no_reports : s.timestamps 0 ≡ none → s.count ≡ 0
  no_reports gone = elim (Bool-cases (ltb 0 s.count)) [
    | inl some_ ↦ let (t, r, listed, _, _) = v.listed 0 (ltb→lt 0 s.count some_) in absurd (cc)
    | inr zero_ ↦ ground arith
  ]

  -- The early returns of the search, and the loop.
  search_lem :
      s.count ≤ u32_max
      → (n : ℕ) × (index_before_fuel search_fuel s timestamp 0
          ≡ some (last_index_before s timestamp s.count, n))
        × (n ≤ 32)
  unfolding index_before_fuel
  search_lem fits = elim (Option-cases s.last_reported_timestamp) [
    | inl nothing ↦ (0, simp (nothing, scan_none s.count (sym v.last ∙ nothing)), omega arith)
    | inr (t, el) ↦ elim (Option-cases (s.timestamps 0)) [
      | inl empty ↦ (0, simp (el, empty, scan_zero s.count (no_reports empty)), omega arith)
      | inr (a, ea) ↦ elim (Bool-cases (leb timestamp a)) [
        | inl early ↦ (
          0,
          simp (el, ea, early)
              (ap (λ x. some (x, 0))
                (sym (
                  scan_newer s v timestamp s.count 0 (omega arith)
                    (newer_from s v timestamp 0 a ea (leb→le timestamp a early))
                  ∙ scan_zero 0 refl))),
          omega arith,
        )
        | inr late ↦
            let (i, lt, ei) = last_undisputed_listed s.count t (sym v.last ∙ el) in
            let (u, r, eu, er, _) = v.listed i lt in
            let same : u ≡ t = cc in index_before_bracketed t a r fits el ea (ground arith) (cc)
      ]
    ]
  ]

-- On a well-formed series of at most 2^32 - 1 reports, the binary search for the last index whose
-- report is older than a time and not disputed finds what a scan of all indices finds (none if
-- there is no such index), in at most MAX_ITERATIONS = 32 rounds.
pub index_before-scan :
    (s : Series) (timestamp : ℕ)
    → IsSeries s
    → s.count ≤ u32_max
    → (get_index_for_data_before s timestamp ≡ last_index_before s timestamp s.count)
      × ((get_index_for_data_before_with_start s timestamp 0).1 ≤ max_iterations)
unfolding get_index_for_data_before
index_before-scan s timestamp v fits =
    let (n, e, few) = search_lem s v timestamp fits in
    (
      ap (λ (o : Option (Option ℕ × ℕ)). (unwrap_or o (none, 0)).0) e,
      omega (arith, ap (λ (o : Option (Option ℕ × ℕ)). (unwrap_or o (none, 0)).1) e),
    )
