-- ===== src/Oracle/After.antt =====
-- The search for the first value after a time, and the values of a period: the `UsingTellor`
-- implementation in src/impls.rs.
pub mod Scan
pub mod Rounds
pub mod Correct
pub mod Collect
pub mod Values
pub mod Period
use tellor_pallet.Base.{
  ℕ, zero, suc, ◌+◌, ◌-◌, ◌/◌, true, false, not, ◌&&◌, Option, none, some, List, [], ◌∷◌, unwrap_or,
  ◌and_then◌, if◌then◌else◌, ltb, leb, ◌==◌,
}
use tellor_pallet.Base.Machine.{saturating_add, saturating_inc, u32_max}
use tellor_pallet.Types.{Bytes}
use tellor_pallet.State.{Oracle}
use tellor_pallet.Oracle.Series.{Series, series, is_in_dispute, retrieve_data}
use tellor_pallet.Oracle.Before.{get_index_for_data_before}

-- `get_timestamp_by_query_id_and_index(..).unwrap_or_default()`.
abbrev pub time_or_zero : Series → ℕ → ℕ
time_or_zero s index = unwrap_or (s.timestamps index) 0

-- What a round of the `while search` loop does next: leave the loop with an index and its time,
-- or go on between two new bounds.
pub data Probe : Type 0 where
  candidate : ℕ → ℕ → Probe
  narrow : ℕ → ℕ → Probe

unfoldable pub after_turn : Series → ℕ → ℕ → ℕ → Probe
after_turn s timestamp start end =
    let middle : ℕ = saturating_add u32_max end start / 2 in
    let timestamp_retrieved = time_or_zero s middle in
    if ltb timestamp timestamp_retrieved
    then (if leb (time_or_zero s (middle - 1)) timestamp
        then candidate middle timestamp_retrieved
        else narrow start (middle - 1))
    else (let next_time = time_or_zero s (saturating_add u32_max middle 1) in
        if ltb timestamp next_time
        then candidate (saturating_inc u32_max middle) next_time
        else narrow (saturating_add u32_max middle 1) end)

-- The loop; `none` means that the fuel ran out.
unfoldable pub after_loop : ℕ → Series → ℕ → ℕ → ℕ → Option (ℕ × ℕ)
after_loop zero s timestamp start end = none
after_loop (suc fuel) s timestamp start end = elim (after_turn s timestamp start end) [
  | candidate middle time ↦ some (middle, time)
  | narrow start' end' ↦ after_loop fuel s timestamp start' end'
]

-- `while is_in_dispute(timestamp_retrieved) && middle < count`: `rounds` is `count - middle`.
unfoldable pub skip_disputed : ℕ → Series → ℕ → ℕ → ℕ × ℕ
skip_disputed zero s middle time = (middle, time)
skip_disputed (suc rounds) s middle time =
    let rest =
      skip_disputed rounds s (saturating_inc u32_max middle)
        (time_or_zero s (saturating_inc u32_max middle)) in
    if is_in_dispute s time then rest else (middle, time)

-- The candidate, or the first later report that is not disputed.
unfoldable pub settle_after : Series → ℕ → ℕ × ℕ → Option ℕ
unfolding skip_disputed
settle_after s count (middle, time) =
    if not (is_in_dispute s time)
    then some middle
    else (let (middle', time') = skip_disputed (count - middle) s middle time in
        if (middle' == count) && is_in_dispute s time' then none else some middle')

-- Each round halves the distance of two 32-bit bounds.
abbrev pub after_fuel : ℕ
after_fuel = 33

-- `get_index_for_data_after`.
unfoldable pub get_index_for_data_after : Series → ℕ → Option ℕ
unfolding after_loop settle_after
get_index_for_data_after s timestamp =
    let end : ℕ = s.count - 1 in
    if s.count == 0
    then none
    else if leb (time_or_zero s end) timestamp
    then none
    else if ltb timestamp (time_or_zero s 0)
    then settle_after s end (0, time_or_zero s 0)
    else after_loop after_fuel s timestamp 0 end and_then settle_after s end

-- `get_data_after`.
unfoldable pub get_data_after : Oracle → ℕ → ℕ → Option (Bytes × ℕ)
get_data_after o query_id timestamp =
    get_index_for_data_after (series o query_id) timestamp and_then λ index.
    o.reported_timestamps_by_index query_id index and_then λ timestamp_retrieved.
    retrieve_data o query_id timestamp_retrieved and_then λ value. some (value, timestamp_retrieved)

-- The loop of `get_multiple_values_before`, downwards from `end_index`. The timestamps are listed
-- with the last pushed first, which is the order in which the source reads them back; none is for fuel
-- that runs out.
unfoldable pub collect_before : ℕ → Series → ℕ → ℕ → ℕ → ℕ → ℕ → List ℕ → Option (List ℕ)
collect_before zero s start_index end_index max_count value_count index timestamps = none
collect_before (suc fuel) s start_index end_index max_count value_count index timestamps =
    elim (ltb value_count max_count
      && ltb start_index (saturating_add u32_max end_index 1 - index)) [
        | false ↦ some timestamps
        | true ↦ elim (s.timestamps (end_index - index)) [
          | none ↦
              collect_before fuel s start_index end_index max_count value_count
                (saturating_inc u32_max index) timestamps
          | some t ↦ elim (is_in_dispute s t) [
            | true ↦
                collect_before fuel s start_index end_index max_count value_count
                  (saturating_inc u32_max index) timestamps
            | false ↦
                collect_before fuel s start_index end_index max_count (value_count + 1)
                  (saturating_inc u32_max index) (t ∷ timestamps)
          ]
        ]
      ]

-- The values of the timestamps that have one, in order.
unfoldable pub values_of : Oracle → ℕ → List ℕ → List (Bytes × ℕ)
values_of o query_id [] = []
values_of o query_id (t ∷ ts) = elim (retrieve_data o query_id t) [
  | none ↦ values_of o query_id ts
  | some value ↦ (value, t) ∷ values_of o query_id ts
]

-- `get_multiple_values_before`. The index grows in each round and the loop ends when it has passed
-- the range, so the fuel is two more than the last index.
unfoldable pub get_multiple_values_before : Oracle → ℕ → ℕ → ℕ → ℕ → List (Bytes × ℕ)
get_multiple_values_before o query_id timestamp max_age max_count =
    elim (get_index_for_data_after (series o query_id) (timestamp - max_age)) [
      | none ↦ []
      | some start_index ↦ elim (get_index_for_data_before (series o query_id) timestamp) [
        | none ↦ []
        | some end_index ↦ values_of o query_id (
            unwrap_or
              (collect_before (end_index + 2) (series o query_id) start_index end_index max_count 0
                0 [])
              [])
      ]
    ]
