-- ===== src/Oracle/Before.antt =====
-- The search for the last value before a time: `get_index_for_data_before_with_start` and its
-- callers in src/impls.rs.
pub mod Scan
pub mod Rounds
pub mod Correct
use tellor_pallet.Base.{
  ℕ, zero, suc, ◌+◌, ◌-◌, ◌/◌, Bool, true, false, Option, none, some, unwrap_or, ◌and_then◌,
  if◌then◌else◌, ltb, leb,
}
use tellor_pallet.Base.Machine.{checked, checked_sub, wrapping_add, saturating_inc, u32_max}
use tellor_pallet.Types.{Bytes, Report}
use tellor_pallet.State.{Oracle}
use tellor_pallet.Oracle.Series.{Series, series, retrieve_data}

-- The result at a candidate: its index, or that of the report before it that is not disputed.
unfoldable pub settle : Series → ℕ → ℕ → Option ℕ
settle s time index = s.reports time and_then λ report.
    if report.is_disputed
    then (report.previous and_then λ t. s.reports t and_then λ r. some r.index)
    else some index

-- What a round of the loop does next: return, or go on between two new bounds.
pub data Turn : Type 0 where
  return : Option ℕ → Turn
  search : ℕ → ℕ → Turn

abbrev pub or_return : {A : Type 0} → Option A → (A → Turn) → Turn
or_return none k = return none
or_return (some a) k = k a

-- `(end.checked_sub(start)?).checked_div(2)?.checked_add(1)?.checked_add(start)?`.
unfoldable pub middle_of : ℕ → ℕ → Option ℕ
middle_of start end =
    ((checked_sub end start and_then λ d. some (d / 2)) and_then λ h. checked u32_max (h + 1))
    and_then λ m. checked u32_max (m + start)

-- The body of the loop.
unfoldable pub before_turn : Series → ℕ → ℕ → ℕ → Turn
unfolding settle middle_of
before_turn s timestamp start end = or_return (middle_of start end) λ middle.
    or_return (s.timestamps middle) λ time.
      if ltb time timestamp
      then or_return (s.timestamps (wrapping_add u32_max middle 1)) (λ next_time.
        if leb timestamp next_time
        then return (settle s time middle)
        else or_return (checked u32_max (middle + 1)) (λ start'. search start' end))
      else or_return (checked_sub middle 1) (λ before.
        or_return (s.timestamps before) (λ previous_time.
          if ltb previous_time timestamp
          then return (settle s previous_time before)
          else search start before))

-- The loop, with the count of its rounds; `none` means that the fuel ran out.
unfoldable pub before_loop : ℕ → Series → ℕ → ℕ → ℕ → ℕ → Option (Option ℕ × ℕ)
before_loop zero s timestamp start end iterations = none
before_loop (suc fuel) s timestamp start end iterations = elim (before_turn s timestamp start end) [
  | return r ↦ some (r, saturating_inc u32_max iterations)
  | search start' end' ↦
      before_loop fuel s timestamp start' end' (saturating_inc u32_max iterations)
]

-- Each round halves the distance of two 32-bit bounds, so this many rounds are enough.
abbrev pub search_fuel : ℕ
search_fuel = 33

abbrev pub or_stop : {A : Type 0} → Option A → (A → Option (Option ℕ × ℕ)) → Option (Option ℕ × ℕ)
or_stop none k = some (none, 0)
or_stop (some a) k = k a

-- `get_index_for_data_before_with_start`, with the fuel of its loop.
unfoldable pub index_before_fuel : ℕ → Series → ℕ → ℕ → Option (Option ℕ × ℕ)
index_before_fuel fuel s timestamp start =
    or_stop s.last_reported_timestamp λ last_reported_timestamp.
      or_stop (s.timestamps start) λ time.
        if leb timestamp time
        then some (none, 0)
        else or_stop (s.reports last_reported_timestamp) (λ last_report.
          if ltb last_reported_timestamp timestamp
          then some (some last_report.index, 0)
          else before_loop fuel s timestamp start last_report.index 0)

unfoldable pub get_index_for_data_before_with_start : Series → ℕ → ℕ → Option ℕ × ℕ
unfolding index_before_fuel
get_index_for_data_before_with_start s timestamp start =
    unwrap_or (index_before_fuel search_fuel s timestamp start) (none, 0)

unfoldable pub get_index_for_data_before : Series → ℕ → Option ℕ
unfolding get_index_for_data_before_with_start
get_index_for_data_before s timestamp = (get_index_for_data_before_with_start s timestamp 0).0

-- The value at an index, with its time.
abbrev pub value_at : Oracle → ℕ → ℕ → Option (Bytes × ℕ)
value_at o query_id index =
    o.reported_timestamps_by_index query_id index and_then λ timestamp_retrieved.
    retrieve_data o query_id timestamp_retrieved and_then λ value. some (value, timestamp_retrieved)

unfoldable pub get_data_before : Oracle → ℕ → ℕ → Option (Bytes × ℕ)
unfolding get_index_for_data_before
get_data_before o query_id timestamp =
    get_index_for_data_before (series o query_id) timestamp and_then value_at o query_id

unfoldable pub get_data_before_with_start : Oracle → ℕ → ℕ → ℕ → Option (Bytes × ℕ) × ℕ
unfolding get_index_for_data_before_with_start
get_data_before_with_start o query_id timestamp start =
    let (index_before, iterations) =
      get_index_for_data_before_with_start (series o query_id) timestamp start in
    (index_before and_then value_at o query_id, iterations)
