-- ===== src/UsingTellor/Pallet.antt =====
-- The pallet's implementation of `UsingTellor` (src/impls.rs) keeps the laws of the trait.
use mathlib.Core.Path.{subst}
use tellor_pallet.Base.{
  ℕ, ◌+◌, ◌≤◌, ◌<◌, ◌≡◌, ◌⊎◌, Bool-cases, ltb, sym, ◌∙◌, Option, some, arith, inl, inr, eq_cases,
  Option-cases,
}
use tellor_pallet.Base.Machine.{u32_max}
use tellor_pallet.Types.{Bytes}
use tellor_pallet.Types.Convert.{bytes_to_u256}
use tellor_pallet.State.{Oracle}
use tellor_pallet.Oracle.Series.{
  series, is_in_dispute, get_reporter_by_timestamp, retrieve_data, last_index_before,
}
use tellor_pallet.Oracle.Invariant.{IsOracle, index_lt_count}
use tellor_pallet.Oracle.Before.{get_index_for_data_before, get_data_before}
use tellor_pallet.Oracle.Before.Correct.{index_before-scan}
use tellor_pallet.Oracle.After.{
  get_index_for_data_after, get_data_after, get_multiple_values_before,
}
use tellor_pallet.Oracle.After.Scan.{first_index_after}
use tellor_pallet.Oracle.After.Correct.{index_after-scan}
use tellor_pallet.Oracle.After.Period.{get_multiple_values_before-lem}
use tellor_pallet.Oracle.Meaning.{
  last_index_before-IsLastBefore, first_index_after-IsFirstAfter, last_index_before-none,
  first_index_after-none,
}
use tellor_pallet.UsingTellor.{UsingTellor, IsUsingTellor, LastBefore, FirstAfter}

-- `get_timestamp_by_query_id_and_index`.
abbrev pub get_timestamp_by_query_id_and_index : Oracle → ℕ → ℕ → Option ℕ
get_timestamp_by_query_id_and_index o query_id index = o.reported_timestamps_by_index query_id index

-- `get_new_value_count_by_query_id`.
abbrev pub get_new_value_count_by_query_id : Oracle → ℕ → ℕ
get_new_value_count_by_query_id o query_id = o.reported_timestamp_count query_id

-- `impl UsingTellor for Pallet`, in a state of the oracle and at a time.
abbrev pub using_tellor : Oracle → ℕ → UsingTellor
using_tellor o now = record {
  bytes_to_uint = bytes_to_u256;
  get_data_after = get_data_after o;
  get_data_before = get_data_before o;
  get_index_for_data_after = λ query_id. get_index_for_data_after (series o query_id);
  get_index_for_data_before = λ query_id. get_index_for_data_before (series o query_id);
  get_multiple_values_before = get_multiple_values_before o;
  get_new_value_count_by_query_id = get_new_value_count_by_query_id o;
  get_reporter_by_timestamp = λ query_id. get_reporter_by_timestamp (series o query_id);
  get_timestamp_by_query_id_and_index = get_timestamp_by_query_id_and_index o;
  is_in_dispute = λ query_id. is_in_dispute (series o query_id);
  now = now;
  retrieve_data = retrieve_data o;
}

lt_cases : (i j : ℕ) → ((i < j) ⊎ (i ≡ j)) ⊎ (j < i)
lt_cases i j = elim (eq_cases i j) [
  | inl same ↦ inl (inr same)
  | inr other ↦ elim (Bool-cases (ltb i j)) [
    | inl less ↦ inl (inl (ground arith))
    | inr more ↦ inr (ground arith)
  ]
]

module _ (o : Oracle) (now : ℕ) (inv : IsOracle o now)
    (fits : (query_id : ℕ)
      → o.reported_timestamp_count query_id + o.reported_timestamp_count query_id ≤ u32_max) where
  before_lem :
      (query_id timestamp : ℕ)
      → get_index_for_data_before (series o query_id) timestamp
        ≡ last_index_before (series o query_id) timestamp (o.reported_timestamp_count query_id)
  before_lem query_id timestamp =
      (index_before-scan (series o query_id) timestamp (inv.ordered query_id)
        (omega (arith, fits query_id))).0

  after_lem :
      (query_id timestamp : ℕ)
      → get_index_for_data_after (series o query_id) timestamp
        ≡ first_index_after (series o query_id) timestamp (o.reported_timestamp_count query_id) 0
  after_lem query_id timestamp =
      index_after-scan (series o query_id) timestamp (inv.ordered query_id) (fits query_id)

  found_before :
      (query_id timestamp i : ℕ)
      → get_index_for_data_before (series o query_id) timestamp ≡ some i
      → (t : ℕ) × LastBefore (using_tellor o now) query_id timestamp i t
  found_before query_id timestamp i e =
      last_index_before-IsLastBefore (series o query_id) timestamp
        (o.reported_timestamp_count query_id) i (sym (before_lem query_id timestamp) ∙ e)

  found_after :
      (query_id timestamp i : ℕ)
      → get_index_for_data_after (series o query_id) timestamp ≡ some i
      → (t : ℕ) × FirstAfter (using_tellor o now) query_id timestamp i t
  found_after query_id timestamp i e =
      first_index_after-IsFirstAfter (series o query_id) timestamp
        (o.reported_timestamp_count query_id) 0 i (sym (after_lem query_id timestamp) ∙ e)

  data_before_lem :
      (query_id timestamp t : ℕ) (value : Bytes)
      → get_data_before o query_id timestamp ≡ some (value, t)
      → ((i : ℕ) × LastBefore (using_tellor o now) query_id timestamp i t)
        × (retrieve_data o query_id t ≡ some value)
  unfolding get_data_before
  data_before_lem query_id timestamp t value e =
      elim (Option-cases (get_index_for_data_before (series o query_id) timestamp)) [
        | inl gone ↦ absurd (cc)
        | inr (i, ei) ↦
            let (u, x) = found_before query_id timestamp i ei in
            let listed = x.listed in
            let same : (u ≡ t) × (retrieve_data o query_id t ≡ some value) = ground arith in
            (
              (i, subst (λ w. LastBefore (using_tellor o now) query_id timestamp i w) same.0 x),
              same.1,
            )
      ]

  data_after_lem :
      (query_id timestamp t : ℕ) (value : Bytes)
      → get_data_after o query_id timestamp ≡ some (value, t)
      → ((i : ℕ) × FirstAfter (using_tellor o now) query_id timestamp i t)
        × (retrieve_data o query_id t ≡ some value)
  unfolding get_data_after
  data_after_lem query_id timestamp t value e =
      elim (Option-cases (get_index_for_data_after (series o query_id) timestamp)) [
        | inl gone ↦ absurd (cc)
        | inr (i, ei) ↦
            let (u, x) = found_after query_id timestamp i ei in
            let listed = x.listed in
            let same : (u ≡ t) × (retrieve_data o query_id t ≡ some value) = ground arith in
            (
              (i, subst (λ w. FirstAfter (using_tellor o now) query_id timestamp i w) same.0 x),
              same.1,
            )
      ]

  -- The last report before a time is one: two indices that both are it are the same.
  data_before_of :
      (query_id timestamp i t : ℕ) (value : Bytes)
      → LastBefore (using_tellor o now) query_id timestamp i t
      → retrieve_data o query_id t ≡ some value
      → get_data_before o query_id timestamp ≡ some (value, t)
  unfolding get_data_before
  data_before_of query_id timestamp i t value x got =
      let s = series o query_id in
      let listed = x.listed in
      let stands = x.stands in
      elim (Option-cases (get_index_for_data_before s timestamp)) [
        | inl gone ↦
            let disputed =
              last_index_before-none s timestamp (o.reported_timestamp_count query_id) i t
                (sym (before_lem query_id timestamp) ∙ gone) x.below listed x.older in
            absurd (cc)
        | inr (j, ej) ↦
            let (u, y) = found_before query_id timestamp j ej in
            let listed' = y.listed in
            let stands' = y.stands in
            elim (lt_cases i j) [
              | inl (inl less) ↦
                  let disputed = x.latest j u less y.below listed' y.older in absurd (cc)
              | inl (inr same) ↦ let same_time : u ≡ t = ground arith in ground arith
              | inr more ↦ let disputed = y.latest i t more x.below listed x.older in absurd (cc)
            ]
      ]

  data_after_of :
      (query_id timestamp i t : ℕ) (value : Bytes)
      → FirstAfter (using_tellor o now) query_id timestamp i t
      → retrieve_data o query_id t ≡ some value
      → get_data_after o query_id timestamp ≡ some (value, t)
  unfolding get_data_after
  data_after_of query_id timestamp i t value x got =
      let s = series o query_id in
      let listed = x.listed in
      let stands = x.stands in
      let below = index_lt_count s (inv.ordered query_id) i t listed in
      elim (Option-cases (get_index_for_data_after s timestamp)) [
        | inl gone ↦
            let disputed =
              first_index_after-none s timestamp (o.reported_timestamp_count query_id) 0 i t
                (sym (after_lem query_id timestamp) ∙ gone) (omega arith) (omega (arith, below))
                listed x.later in
            absurd (cc)
        | inr (j, ej) ↦
            let (u, y) = found_after query_id timestamp j ej in
            let listed' = y.listed in
            let stands' = y.stands in
            elim (lt_cases i j) [
              | inl (inl less) ↦
                  let disputed = y.earliest i t (omega arith) less listed x.later in absurd (cc)
              | inl (inr same) ↦ let same_time : u ≡ t = ground arith in ground arith
              | inr more ↦
                  let disputed = x.earliest j u (omega arith) more listed' y.later in absurd (cc)
            ]
      ]

-- In every state of the oracle that keeps its invariant, where no series has more than 2^31 - 1
-- reports, the implementation keeps the laws of the trait: the searches find the last value before
-- a time and the first one after it, of those that are not disputed, and fail only where all are;
-- the data of that value are found, and no others; several values are exactly those of the newest
-- times of the period that are not disputed, as many times as asked for, from the oldest to the
-- newest.
pub using_tellor-IsUsingTellor :
    (o : Oracle) (now : ℕ)
    → IsOracle o now
    → ((query_id : ℕ)
        → o.reported_timestamp_count query_id + o.reported_timestamp_count query_id ≤ u32_max)
    → IsUsingTellor (using_tellor o now)
using_tellor-IsUsingTellor o now inv fits = record {
  index_before = found_before o now inv fits;
  no_index_before = λ query_id timestamp j u e eu old.
      last_index_before-none (series o query_id) timestamp (o.reported_timestamp_count query_id) j u
        (sym (before_lem o now inv fits query_id timestamp) ∙ e)
        (index_lt_count (series o query_id) (inv.ordered query_id) j u eu) eu old;
  index_after = found_after o now inv fits;
  no_index_after = λ query_id timestamp j u e eu late.
      first_index_after-none (series o query_id) timestamp (o.reported_timestamp_count query_id) 0 j
        u (sym (after_lem o now inv fits query_id timestamp) ∙ e) (omega arith)
        (omega (arith, index_lt_count (series o query_id) (inv.ordered query_id) j u eu)) eu late;
  data_before = data_before_lem o now inv fits;
  data_after = data_after_lem o now inv fits;
  data_before_of = data_before_of o now inv fits;
  data_after_of = data_after_of o now inv fits;
  values_before =
      λ query_id. get_multiple_values_before-lem o query_id (inv.ordered query_id) (fits query_id);
}
