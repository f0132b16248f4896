-- ===== src/Oracle/Submit/Order.antt =====
-- A new report keeps the invariant of the oracle.
use mathlib.Core.Path.{subst}
use tellor_pallet.Base.{
  ℕ, suc, ◌≤◌, ◌<◌, ◌≡◌, ◌≢◌, refl, sym, ◌∙◌, false, none, some, arith, eq_cases, inl, inr,
}
use tellor_pallet.Base.Machine.{u32_max}
use tellor_pallet.Types.{Bytes, Report, ok, Origin}
use tellor_pallet.Config.{Config}
use tellor_pallet.State.{Oracle, Pallet}
use tellor_pallet.Oracle.Series.{Series, series, IsSeries, last_undisputed, is_in_dispute}
use tellor_pallet.Oracle.Invariant.{IsOracle, index_lt_count, last_undisputed-cong, series-eq}
use tellor_pallet.Oracle.Submit.{record_report, submit_value}

-- One more report at the end of a series.
record Extends (s s' : Series) (t : ℕ) (r : Report) : Type 0 where
  count : s'.count ≡ suc s.count
  new_time : s'.timestamps s.count ≡ some t
  old_times : (i : ℕ) → i ≢ s.count → s'.timestamps i ≡ s.timestamps i
  new_report : s'.reports t ≡ some r
  old_reports : (u : ℕ) → u ≢ t → s'.reports u ≡ s.reports u
  index : r.index ≡ s.count
  stands : r.is_disputed ≡ false
  previous : r.previous ≡ s.last_reported_timestamp
  last : s'.last_reported_timestamp ≡ some t

module _ (s s' : Series) (t : ℕ) (r : Report) (v : IsSeries s) (x : Extends s s' t r)
    (fresh : (i u : ℕ) → s.timestamps i ≡ some u → u < t) where
  old_index : (i u : ℕ) → s.timestamps i ≡ some u → i ≢ s.count
  old_index i u e same = let gone = v.unlisted i (omega arith) in absurd (cc)

  -- What stands below the old count is unchanged.
  last_undisputed-old : (n : ℕ) → n ≤ s.count → last_undisputed s' n ≡ last_undisputed s n
  last_undisputed-old n le =
      last_undisputed-cong s s' n (λ i lt. x.old_times i (omega arith))
        (λ i u lt e.
          let before = fresh i u e in
          let same = x.old_reports u (omega arith) in rw (same, is_in_dispute))

  listed-extends :
      (i : ℕ)
      → i < s'.count
      → (u : ℕ) × (q : Report) × (s'.timestamps i ≡ some u)
        × (s'.reports u ≡ some q)
        × (q.index ≡ i)
  listed-extends i lt = elim (eq_cases i s.count) [
    | inl new ↦ (t, r, rw new x.new_time, x.new_report, x.index ∙ sym new)
    | inr old ↦
        let (u, q, listed, reported, index) = v.listed i (omega (arith, x.count)) in
        let before = fresh i u listed in
        (u, q, x.old_times i old ∙ listed, x.old_reports u (omega arith) ∙ reported, index)
  ]

  increasing-extends :
      (i j a b : ℕ) → s'.timestamps i ≡ some a → s'.timestamps j ≡ some b → i < j → a < b
  increasing-extends i j a b ea eb lt = elim (eq_cases j s.count) [
    | inl last_ ↦
        let old = x.old_times i (omega arith) in
        let before = fresh i a (sym old ∙ ea) in
        let here : s'.timestamps j ≡ some t = rw last_ x.new_time in
        let same : t ≡ b = cc in omega arith
    | inr old ↦
        let ob : s.timestamps j ≡ some b = sym (x.old_times j old) ∙ eb in
        elim (eq_cases i s.count) [
          | inl first ↦ let gone = v.unlisted j (omega arith) in absurd (cc)
          | inr first ↦ v.increasing i j a b (sym (x.old_times i first) ∙ ea) ob lt
        ]
  ]

  reported-extends : (u : ℕ) (q : Report) → s'.reports u ≡ some q → s'.timestamps q.index ≡ some u
  reported-extends u q e = elim (eq_cases u t) [
    | inl new ↦
        let known : s'.reports u ≡ some r = rw new x.new_report in
        let same : r ≡ q = cc in
        let at_end : q.index ≡ s.count = rw (← same) x.index in rw (at_end, new) x.new_time
    | inr old ↦
        let listed = v.reported u q (sym (x.old_reports u old) ∙ e) in
        x.old_times q.index (old_index q.index u listed) ∙ listed
  ]

  previous-extends :
      (u : ℕ) (q : Report) → s'.reports u ≡ some q → q.previous ≡ last_undisputed s' q.index
  previous-extends u q e = elim (eq_cases u t) [
    | inl new ↦
        let known : s'.reports u ≡ some r = rw new x.new_report in
        let same : r ≡ q = cc in
        rw (← same, x.index, last_undisputed-old s.count (omega arith)) (x.previous ∙ v.last)
    | inr old ↦
        let known = sym (x.old_reports u old) ∙ e in
        let listed = v.reported u q known in
        let below = index_lt_count s v q.index u listed in
        v.previous u q known ∙ sym (last_undisputed-old q.index (omega arith))
  ]

  last_undisputed-new : last_undisputed s' (suc s.count) ≡ some t
  unfolding last_undisputed
  last_undisputed-new =
      let stands : is_in_dispute s' t ≡ false = rw (x.new_report, is_in_dispute) x.stands in
      rw (x.new_time, last_undisputed, stands)

  last_undisputed-end : (n : ℕ) → n ≡ suc s.count → last_undisputed s' n ≡ some t
  last_undisputed-end n e = rw e last_undisputed-new

  Extends-IsSeries : IsSeries s'
  Extends-IsSeries = record {
    listed = listed-extends;
    unlisted = λ i le.
        let old = x.old_times i (omega (arith, x.count)) in
        let gone = v.unlisted i (omega (arith, x.count)) in old ∙ gone;
    increasing = increasing-extends;
    reported = reported-extends;
    previous = previous-extends;
    last = x.last ∙ sym (last_undisputed-end s'.count x.count);
  }

-- The writes of `submit_value` extend the series of the query identifier.
record_report-Extends :
    (o : Oracle) (query_id timestamp block_number reporter : ℕ) (value : Bytes)
    → o.reported_timestamp_count query_id < u32_max
    → Extends
        (series o query_id)
        (series (record_report query_id timestamp block_number value reporter o) query_id)
        timestamp
        (record {
          index = o.reported_timestamp_count query_id;
          block_number = block_number;
          reporter = reporter;
          is_disputed = false;
          previous = o.last_reported_timestamp query_id;
        })
unfolding record_report
record_report-Extends o query_id timestamp block_number reporter value room = record {
  count = ground arith;
  new_time = ground arith;
  old_times = λ i ne. ground arith;
  new_report = ground arith;
  old_reports = λ u ne. ground arith;
  index = refl;
  stands = refl;
  previous = refl;
  last = ground arith;
}

record_report-other :
    (o : Oracle) (query_id timestamp block_number reporter : ℕ) (value : Bytes) (other : ℕ)
    → other ≢ query_id
    → series (record_report query_id timestamp block_number value reporter o) other ≡ series o other
unfolding record_report
record_report-other o query_id timestamp block_number reporter value other ne =
    series-eq _ _ (ground arith) (λ t. ground arith) (λ i. ground arith) (ground arith)

-- A time that is not reported yet is later than all that are.
later_than_all :
    (o : Oracle) (query_id now : ℕ)
    → IsOracle o now
    → o.reports query_id now ≡ none
    → (i u : ℕ) → o.reported_timestamps_by_index query_id i ≡ some u
    → u < now
later_than_all o query_id now inv new i u e =
    let v = inv.ordered query_id in
    let le = inv.clock query_id i u e in
    let (u', r, listed, reported, _) = v.listed i (index_lt_count (series o query_id) v i u e) in
    let same : u' ≡ u = cc in
    elim (eq_cases u now) [
      | inl equal ↦
          let wrong : o.reports query_id now ≡ some r = rw (← equal, ← same) reported in absurd (cc)
      | inr ne ↦ omega arith
    ]

record_report-clock :
    (o : Oracle) (query_id now block_number reporter : ℕ) (value : Bytes)
    → IsOracle o now
    → (q i t : ℕ)
    → (record_report query_id now block_number value reporter o).reported_timestamps_by_index q i
      ≡ some t
    → t ≤ now
unfolding record_report
record_report-clock o query_id now block_number reporter value inv q i t e =
    ground (arith, inv.clock q i t)

record_report-IsOracle :
    (o : Oracle) (query_id now block_number reporter : ℕ) (value : Bytes)
    → IsOracle o now
    → o.reported_timestamp_count query_id < u32_max
    → o.reports query_id now ≡ none
    → IsOracle (record_report query_id now block_number value reporter o) now
record_report-IsOracle o query_id now block_number reporter value inv room new = record {
  ordered = λ q. elim (eq_cases q query_id) [
    | inl same ↦ rw same (
        Extends-IsSeries (series o query_id) _ now _ (inv.ordered query_id)
          (record_report-Extends o query_id now block_number reporter value room)
          (later_than_all o query_id now inv new))
    | inr other ↦
        subst IsSeries
          (sym (record_report-other o query_id now block_number reporter value q other))
          (inv.ordered q)
  ];
  clock = record_report-clock o query_id now block_number reporter value inv;
}

module _ {W : Type 0} (c : Config W) where
  -- A submission that is accepted writes the report for the signer, at the time of the clock.
  pub submitted :
      (origin : Origin) (query_id nonce : ℕ) (value query_data : Bytes) (s s' : Pallet W)
      → submit_value c origin query_id value nonce query_data s ≡ ok s'
      → (reporter : ℕ) × (s'.oracle
          ≡ record_report query_id s.now s.block_number value reporter s.oracle)
        × (s.oracle.reports query_id s.now ≡ none)
        × (s'.now ≡ s.now)
  unfolding submit_value
  submitted (Origin.signed reporter) query_id nonce value query_data s s' e =
      (reporter, ground arith, ground arith, ground arith)
  submitted Origin.governance query_id nonce value query_data s s' e = absurd (cc)
  submitted Origin.staking query_id nonce value query_data s s' e = absurd (cc)
  submitted Origin.other query_id nonce value query_data s s' e = absurd (cc)

  -- A submission that is accepted, where the count of reports of the query identifier is below 2^32
  -- - 1, keeps the invariant of the oracle.
  pub submit_value-IsOracle :
      (origin : Origin) (query_id nonce : ℕ) (value query_data : Bytes) (s s' : Pallet W)
      → IsOracle s.oracle s.now
      → s.oracle.reported_timestamp_count query_id < u32_max
      → submit_value c origin query_id value nonce query_data s ≡ ok s'
      → IsOracle s'.oracle s'.now
  submit_value-IsOracle origin query_id nonce value query_data s s' inv room e =
      let (reporter, written, new, now) = submitted origin query_id nonce value query_data s s' e in
      rw (written, now)
        (record_report-IsOracle s.oracle query_id s.now s.block_number reporter value inv room new)
