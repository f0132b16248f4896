-- ===== src/Oracle/Remove/Unread.antt =====
-- A removed value is not read again: `remove_value` and the reads of src/impls.rs.
use tellor_pallet.Base.{
  ℕ, ◌+◌, ◌-◌, ◌≡◌, ◌≢◌, none, some, List, [], ◌∷◌, arith, unwrap_or, Option-cases, inl, inr,
}
use tellor_pallet.Types.{Bytes}
use tellor_pallet.State.{Oracle}
use tellor_pallet.Oracle.Series.{series, retrieve_data}
use tellor_pallet.Oracle.Before.{get_data_before, get_index_for_data_before}
use tellor_pallet.Oracle.After.{
  get_data_after, get_index_for_data_after, collect_before, get_multiple_values_before, values_of,
}
use tellor_pallet.Oracle.After.Values.{no_start, no_end, values_lem}

-- None of the values has the time.
abbrev pub Without : ℕ → List (Bytes × ℕ) → Type 0
Without t [] = Unit {0}
Without t ((value, u) ∷ vs) = (u ≢ t) × Without t vs

module _ (o : Oracle) (query_id t : ℕ) (gone : retrieve_data o query_id t ≡ none) where
  before-unread :
      (timestamp : ℕ) (value : Bytes) → get_data_before o query_id timestamp ≢ some (value, t)
  unfolding get_data_before
  before-unread timestamp value e = ground arith

  after-unread :
      (timestamp : ℕ) (value : Bytes) → get_data_after o query_id timestamp ≢ some (value, t)
  unfolding get_data_after
  after-unread timestamp value e = ground arith

  values_of-Without : (ts : List ℕ) → Without t (values_of o query_id ts)
  unfolding values_of
  values_of-Without [] = tt
  values_of-Without (u ∷ ts) = elim (Option-cases (retrieve_data o query_id u)) [
    | inl none_ ↦ rw (none_, Without) (values_of-Without ts)
    | inr (value, e) ↦ rw (e, Without) (λ same. absurd (cc), values_of-Without ts)
  ]

  multiple-Without :
      (timestamp max_age max_count : ℕ)
      → Without t (get_multiple_values_before o query_id timestamp max_age max_count)
  multiple-Without timestamp max_age max_count =
      elim (Option-cases (get_index_for_data_after (series o query_id) (timestamp - max_age))) [
        | inl none_ ↦ rw (no_start o query_id timestamp max_age max_count none_) tt
        | inr (start_index, ea) ↦
            elim (Option-cases (get_index_for_data_before (series o query_id) timestamp)) [
              | inl none_ ↦
                  rw (no_end o query_id timestamp max_age max_count start_index ea none_) tt
              | inr (end_index, eb) ↦
                  rw (values_lem o query_id timestamp max_age max_count start_index end_index ea eb)
                    (values_of-Without (
                      unwrap_or
                        (collect_before (end_index + 2) (series o query_id) start_index end_index
                          max_count 0 0 [])
                        []))
            ]
      ]

-- The value at a time is read neither as the last one before any time, nor as the
-- first one after any time, nor among the values of any period.
abbrev pub Unread : Oracle → ℕ → ℕ → Type 0
Unread o query_id t =
    ((timestamp : ℕ) (value : Bytes) → get_data_before o query_id timestamp ≢ some (value, t))
    × ((timestamp : ℕ) (value : Bytes) → get_data_after o query_id timestamp ≢ some (value, t))
    × ((timestamp max_age max_count : ℕ)
        → Without t (get_multiple_values_before o query_id timestamp max_age max_count))

pub none-Unread :
    (o : Oracle) (query_id t : ℕ) → retrieve_data o query_id t ≡ none → Unread o query_id t
none-Unread o query_id t gone = (
  before-unread o query_id t gone,
  after-unread o query_id t gone,
  multiple-Without o query_id t gone,
)
