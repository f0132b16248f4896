-- ===== src/Oracle/Remove/Order.antt =====
-- The removal of a value keeps the invariant of the oracle: `remove_value` of src/impls.rs.
use mathlib.Core.Path.{subst}
use native.Mathlib.Numerals.{add-one}
use tellor_pallet.Base.{
  ℕ, ◌+◌, ◌-◌, ◌≤◌, ◌<◌, ◌≡◌, ◌≢◌, refl, sym, ap, ◌∙◌, true, false, none, some, arith, Option-cases,
  eq_cases, inl, inr, ◌⊎◌, set, set₂,
}
use tellor_pallet.Base.Machine.{u32_max, saturating_add}
use tellor_pallet.Types.{Report, ok, Result-cases}
use tellor_pallet.Config.{Config}
use tellor_pallet.State.{Oracle, Pallet}
use tellor_pallet.Oracle.Series.{Series, series, IsSeries, last_undisputed, is_in_dispute}
use tellor_pallet.Oracle.Invariant.{
  IsOracle, index_lt_count, last_undisputed-cong, same_time, series-eq,
}
use tellor_pallet.Oracle.Remove.{repoint, remove_report, remove_value, step_back, Reports}
use tellor_pallet.Oracle.Remove.Marked.{marked, marked_below, marked_steps_back}
use tellor_pallet.Oracle.Remove.Repoint.{Progress, Progress-start, Finished, repoint-Finished}

-- What the removal leaves of a series: the finished reports with the removed one marked, and the
-- last reported timestamp moved back if it was the removed one.
module _ (s : Series) (v : IsSeries s) (removed : ℕ) (r : Report)
    (known : s.reports removed ≡ some r) (stands : r.is_disputed ≡ false) (reports : Reports)
    (f : Finished s v removed r known stands reports) where
  abbrev after : Series
  after = record s {
    reports = set removed (some (record r { is_disputed = true })) reports;
    last_reported_timestamp = step_back removed r.previous s.last_reported_timestamp;
  }

  -- Disputes are as in the marked series.
  after_disputes :
      (u : ℕ) (q₀ : Report)
      → s.reports u ≡ some q₀
      → is_in_dispute after u ≡ is_in_dispute (marked s v removed r known stands) u
  after_disputes u q₀ e = elim (eq_cases u removed) [
    | inl same ↦ rw same (ground arith)
    | inr other ↦
        let (q, eq) = f.kept u q₀ e in let (q₁, e₁, _, disputed) = f.shape u q eq in ground arith
  ]

  after_scan :
      (n : ℕ)
      → n ≤ s.count
      → last_undisputed after n ≡ last_undisputed (marked s v removed r known stands) n
  after_scan n le =
      last_undisputed-cong (marked s v removed r known stands) after n (λ i lt. refl)
        (λ i t lt e.
          let (t', q₀, e', known₀, _) = v.listed i (omega arith) in
          after_disputes t q₀ (rw (same_time s i i t t' e e' refl) known₀))

  after_last :
      last_undisputed (marked s v removed r known stands) s.count
      ≡ step_back removed r.previous s.last_reported_timestamp
  after_last =
      marked_steps_back s v removed r known stands s.count (omega arith)
      ∙ ap (step_back removed r.previous) (sym v.last)

  after_cases :
      (u : ℕ) (q : Report)
      → after.reports u ≡ some q
      → ((u ≡ removed) × (q ≡ record r { is_disputed = true }))
        ⊎ ((u ≢ removed) × (reports u ≡ some q))
  after_cases u q e = elim (eq_cases u removed) [
    | inl same ↦ inl (same, ground arith)
    | inr other ↦ inr (other, ground arith)
  ]

  same_report : (u : ℕ) (q : Report) → u ≡ removed → s.reports u ≡ some q → r ≡ q
  same_report u q same e = cc

  after-IsSeries : IsSeries after
  after-IsSeries = record {
    listed = λ i lt.
        let (t, q₀, e, known₀, index) = v.listed i lt in
        elim (eq_cases t removed) [
          | inl same ↦
              let eq : r ≡ q₀ = same_report t q₀ same known₀ in
              (t, record r { is_disputed = true }, e, rw same (ground arith), rw eq index)
          | inr other ↦
              let (q, here) = f.kept t q₀ known₀ in
              let (q₁, e₁, index₁, _) = f.shape t q here in
              let eq : q₀ ≡ q₁ = cc in (t, q, e, ground arith, index₁ ∙ rw (← eq) index)
        ];
    unlisted = v.unlisted;
    increasing = v.increasing;
    reported = λ u q e. elim (after_cases u q e) [
      | inl (same, new) ↦ rw (new, same) (v.reported removed r known)
      | inr (other, old) ↦ let (q₀, e₀, index, _) = f.shape u q old in rw index (v.reported u q₀ e₀)
    ];
    previous = λ u q e. elim (after_cases u q e) [
      | inl (same, new) ↦
          let below = index_lt_count s v r.index removed (v.reported removed r known) in
          rw new (
            v.previous removed r known
            ∙ sym (marked_below s v removed r known stands r.index (omega arith))
            ∙ sym (after_scan r.index (omega arith)))
      | inr (other, old) ↦
          let (q₀, e₀, index, _) = f.shape u q old in
          let below = index_lt_count s v q₀.index u (v.reported u q₀ e₀) in
          f.done u q old ∙ sym (after_scan q.index (omega arith))
    ];
    last = sym after_last ∙ sym (after_scan s.count (omega arith));
  }

-- The writes of a removal.
abbrev removed_oracle : Oracle → ℕ → ℕ → Report → Reports → Oracle
removed_oracle o query_id timestamp r reports = record o {
  last_reported_timestamp =
      set query_id (step_back timestamp r.previous (o.last_reported_timestamp query_id))
        o.last_reported_timestamp;
  reports = set query_id (set timestamp (some (record r { is_disputed = true })) reports) o.reports;
  reported_values_by_timestamp = set₂ query_id timestamp none o.reported_values_by_timestamp;
}

module _ (o : Oracle) (query_id timestamp : ℕ) (r : Report) (reports : Reports) where
  removed_self :
      series (removed_oracle o query_id timestamp r reports) query_id ≡ record (series o query_id) {
        reports = set timestamp (some (record r { is_disputed = true })) reports;
        last_reported_timestamp =
            step_back timestamp r.previous (o.last_reported_timestamp query_id);
      }
  removed_self = series-eq _ _ (ground arith) (λ t. ground arith) (λ i. refl) refl

  removed_other :
      (q : ℕ) → q ≢ query_id → series (removed_oracle o query_id timestamp r reports) q ≡ series o q
  removed_other q ne = series-eq _ _ (ground arith) (λ t. ground arith) (λ i. refl) refl

module _ (max query_id timestamp : ℕ) (o o' : Oracle) (n : ℕ) where
  -- A removal that succeeds, taken apart.
  removal :
      remove_report max query_id timestamp o ≡ ok (o', n)
      → o.reported_timestamp_count query_id + max < u32_max
      → IsSeries (series o query_id)
      → (r : Report) × (reports : Reports) × (o.reports query_id timestamp ≡ some r)
        × (r.is_disputed ≡ false)
        × (repoint
              (max + 1)
              max
              (o.reported_timestamps_by_index query_id)
              r.previous
              (r.index + 1)
              0
              (o.reports query_id)
            ≡ ok (reports, n))
        × (o' ≡ removed_oracle o query_id timestamp r reports)
  unfolding remove_report
  removal e room v = elim (Option-cases (o.reports query_id timestamp)) [
    | inl gone ↦ absurd (ground arith)
    | inr (r, known) ↦
        let listed = v.reported timestamp r known in
        let below = index_lt_count (series o query_id) v r.index timestamp listed in
        let rounds : saturating_add u32_max (r.index + 1) max + 1 - (r.index + 1) ≡ max + 1 =
          ground arith in
        elim (Result-cases (
          repoint (max + 1) max (o.reported_timestamps_by_index query_id) r.previous (r.index + 1) 0
            (o.reports query_id))) [
              | inl ((reports, m), done) ↦
                  (r, reports, known, ground arith, done ∙ ground arith, ground arith)
              | inr (x, failed) ↦ absurd (ground arith)
            ]
  ]

  removed-IsOracle :
      (now : ℕ)
      → IsOracle o now
      → o.reported_timestamp_count query_id + max < u32_max
      → remove_report max query_id timestamp o ≡ ok (o', n)
      → IsOracle o' now
  removed-IsOracle now inv room e =
      let v = inv.ordered query_id in
      let (r, reports, known, stands, done, written) = removal e room v in
      let listed = v.reported timestamp r known in
      let below = index_lt_count (series o query_id) v r.index timestamp listed in
      let start : Progress (series o query_id) v timestamp r known stands (r.index + 1)
          (o.reports query_id) =
        rw (add-one r.index) (Progress-start (series o query_id) v timestamp r known stands) in
      let f =
        repoint-Finished (series o query_id) v timestamp r known stands (max + 1) max (r.index + 1)
          0 (o.reports query_id) start (omega arith) (omega arith) (omega arith) (omega arith)
          reports n done in
      rw written (record {
        ordered = λ q. elim (eq_cases q query_id) [
          | inl same ↦ rw same (
              subst IsSeries (sym (removed_self o query_id timestamp r reports))
                (after-IsSeries (series o query_id) v timestamp r known stands reports f))
          | inr other ↦
              subst IsSeries (sym (removed_other o query_id timestamp r reports q other))
                (inv.ordered q)
        ];
        clock = inv.clock;
      })

module _ {W : Type 0} (c : Config W) where
  -- A removal that is accepted, where the count of reports of the query identifier and the limit of
  -- the loop together stay below 2^32 - 1, keeps the invariant of the oracle: each series is
  -- ordered, its indices and reports agree, every report and the last reported timestamp point to
  -- the last report before them that is not disputed, and no report is later than the clock.
  pub remove_value-IsOracle :
      (query_id timestamp n : ℕ) (s s' : Pallet W)
      → IsOracle s.oracle s.now
      → s.oracle.reported_timestamp_count query_id + c.max_disputed_time_series < u32_max
      → remove_value c query_id timestamp s ≡ ok (s', n)
      → IsOracle s'.oracle s'.now
  unfolding remove_value
  remove_value-IsOracle query_id timestamp n s s' inv room e =
      elim (Result-cases (remove_report c.max_disputed_time_series query_id timestamp s.oracle)) [
        | inl ((o, m), done) ↦
            let same_oracle : s'.oracle ≡ o = ground arith in
            let same_now : s'.now ≡ s.now = ground arith in
            rw (same_oracle, same_now)
              (removed-IsOracle c.max_disputed_time_series query_id timestamp s.oracle o m s.now inv
                room done)
        | inr (x, failed) ↦ absurd (ground arith)
      ]
