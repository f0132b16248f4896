-- ===== src/Oracle/After/Period.antt =====
-- The values of a period are those of its newest times: `get_multiple_values_before` of src/impls.rs.
use tellor_pallet.Base.{
  ℕ, zero, suc, List, Option, refl, ◌+◌, ◌-◌, ◌≤◌, ◌<◌, ◌≡◌, sym, ap, ◌∙◌, none, some, [], arith,
  inl, inr, eq_cases, Option-cases, take, reverse_onto,
}
use tellor_pallet.Base.Machine.{u32_max}
use tellor_pallet.Types.{Bytes}
use tellor_pallet.State.{Oracle}
use tellor_pallet.Oracle.Series.{Series, series, IsSeries, is_in_dispute, retrieve_data}
use tellor_pallet.Oracle.Before.{get_index_for_data_before}
use tellor_pallet.Oracle.Before.Correct.{index_before-scan}
use tellor_pallet.Oracle.Meaning.{
  IsLastBefore, IsFirstAfter, times_within, with_data, last_index_before-IsLastBefore,
  last_index_before-none, first_index_after-IsFirstAfter, first_index_after-none,
}
use tellor_pallet.Oracle.After.{get_index_for_data_after, get_multiple_values_before}
use tellor_pallet.Oracle.After.Correct.{index_after-scan}
use tellor_pallet.Oracle.After.Collect.{standing, collect_before-standing}
use tellor_pallet.Oracle.After.Values.{
  no_start, no_end, values_lem, values_of-with_data, within-empty, within-high, within-standing,
}

-- From an index on, the times are no earlier than its own.
times_from :
    (s : Series)
    → IsSeries s
    → (j i t w bound : ℕ) → s.timestamps j ≡ some t
    → s.timestamps i ≡ some w
    → j ≤ i
    → bound < t
    → bound < w
times_from s v j i t w bound ej ei le late = elim (eq_cases i j) [
  | inl same ↦ let e : t ≡ w = cc in omega arith
  | inr other ↦ omega (arith, v.increasing j i t w ej ei (omega arith))
]

-- Up to an index, the times are no later than its own.
times_until :
    (s : Series)
    → IsSeries s
    → (i j w u bound : ℕ) → s.timestamps i ≡ some w
    → s.timestamps j ≡ some u
    → i ≤ j
    → u < bound
    → w < bound
times_until s v i j w u bound ei ej le old = elim (eq_cases i j) [
  | inl same ↦ let e : u ≡ w = cc in omega arith
  | inr other ↦ omega (arith, v.increasing i j w u ei ej (omega arith))
]

nothing :
    (data_of : ℕ → Option Bytes) (n : ℕ) → [] ≡ with_data data_of (reverse_onto (take n []) [])
nothing data_of zero = refl
nothing data_of (suc n) = refl

module _ (o : Oracle) (query_id : ℕ) (v : IsSeries (series o query_id))
    (fits : o.reported_timestamp_count query_id + o.reported_timestamp_count query_id
      ≤ u32_max) where
  abbrev s : Series
  s = series o query_id

  abbrev count : ℕ
  count = o.reported_timestamp_count query_id

  abbrev period : ℕ → ℕ → List ℕ
  period bound timestamp = times_within s.timestamps (is_in_dispute s) bound timestamp count

  none_after :
      (bound timestamp : ℕ) → get_index_for_data_after s bound ≡ none → period bound timestamp ≡ []
  none_after bound timestamp gone = within-empty s bound timestamp count (λ j t lt et later older.
      first_index_after-none s bound count 0 j t (sym (index_after-scan s bound v fits) ∙ gone)
        (omega arith) (omega (arith, lt)) et later)

  none_before :
      (bound timestamp : ℕ)
      → get_index_for_data_before s timestamp ≡ none
      → period bound timestamp ≡ []
  none_before bound timestamp gone = within-empty s bound timestamp count (λ j t lt et later older.
      last_index_before-none s timestamp count j t
        (sym (index_before-scan s timestamp v (omega (arith, fits))).0 ∙ gone) lt et older)

  period-standing :
      (bound timestamp start_index end_index t u : ℕ)
      → IsFirstAfter s.timestamps (is_in_dispute s) bound 0 start_index t
      → IsLastBefore s.timestamps (is_in_dispute s) timestamp count end_index u
      → period bound timestamp ≡ standing s start_index (end_index + 1)
  period-standing bound timestamp start_index end_index t u first last =
      let below = last.below in
      let more : count ≡ count - (end_index + 1) + (end_index + 1) = omega arith in
      ap (λ (n : ℕ). times_within s.timestamps (is_in_dispute s) bound timestamp n) more
      ∙ within-high s bound timestamp end_index (count - (end_index + 1))
          (λ j w lo hi ew old. last.latest j w lo (omega (arith, more)) ew old)
      ∙ within-standing s bound timestamp start_index (end_index + 1)
          (λ j w lt ew late. first.earliest j w (omega arith) lt ew late)
          (λ j w from ew. times_from s v start_index j t w bound first.listed ew from first.later)
          (λ j w lt ew.
            times_until s v j end_index w u timestamp ew last.listed (omega (arith, lt)) last.older)

  pub get_multiple_values_before-lem :
      (timestamp max_age max_count : ℕ)
      → get_multiple_values_before o query_id timestamp max_age max_count
        ≡ with_data
            (retrieve_data o query_id)
            (reverse_onto (take max_count (period (timestamp - max_age) timestamp)) [])
  get_multiple_values_before-lem timestamp max_age max_count =
      let bound : ℕ = timestamp - max_age in
      elim (Option-cases (get_index_for_data_after s bound)) [
        | inl gone ↦
            no_start o query_id timestamp max_age max_count gone
            ∙ rw (none_after bound timestamp gone) (nothing (retrieve_data o query_id) max_count)
        | inr (start_index, ea) ↦ elim (Option-cases (get_index_for_data_before s timestamp)) [
          | inl gone ↦
              no_end o query_id timestamp max_age max_count start_index ea gone
              ∙ rw (none_before bound timestamp gone) (nothing (retrieve_data o query_id) max_count)
          | inr (end_index, eb) ↦
              let (t, first) =
                first_index_after-IsFirstAfter s bound count 0 start_index
                  (sym (index_after-scan s bound v fits) ∙ ea) in
              let (u, last) =
                last_index_before-IsLastBefore s timestamp count end_index
                  (sym (index_before-scan s timestamp v (omega (arith, fits))).0 ∙ eb) in
              let below = last.below in
              values_lem o query_id timestamp max_age max_count start_index end_index ea eb
              ∙ rw
                  (
                    collect_before-standing s start_index end_index max_count
                        (omega (arith, below, fits)),
                    period-standing bound timestamp start_index end_index t u first last,
                  )
                  (values_of-with_data o query_id _)
        ]
      ]
