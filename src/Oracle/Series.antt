-- ===== src/Oracle/Series.antt =====
-- What the oracle's storage holds of one query identifier, and the reads of src/impls.rs.
use tellor_pallet.Base.{
  ℕ, zero, suc, ◌≤◌, ◌<◌, ◌≡◌, Bool, false, not, Option, none, some, ◌and_then◌, if◌then◌else◌,
  lookup, ltb, ◌&&◌,
}
use tellor_pallet.Types.{Bytes, Report}
use tellor_pallet.State.{Oracle, Staking}

pub record Series : Type 0 where
  pub last_reported_timestamp : Option ℕ
  pub reports : ℕ → Option Report
  pub timestamps : ℕ → Option ℕ
  pub count : ℕ

abbrev pub series : Oracle → ℕ → Series
series o query_id = record {
  last_reported_timestamp = o.last_reported_timestamp query_id;
  reports = o.reports query_id;
  timestamps = o.reported_timestamps_by_index query_id;
  count = o.reported_timestamp_count query_id;
}

-- `is_in_dispute`.
abbrev pub is_in_dispute : Series → ℕ → Bool
is_in_dispute s timestamp = elim (s.reports timestamp) [
  | none ↦ false
  | some report ↦ report.is_disputed
]

-- `get_timestamp_index_by_timestamp`.
abbrev pub get_timestamp_index_by_timestamp : Series → ℕ → Option ℕ
get_timestamp_index_by_timestamp s timestamp = s.reports timestamp and_then λ r. some r.index

-- `get_block_number_by_timestamp`.
abbrev pub get_block_number_by_timestamp : Series → ℕ → Option ℕ
get_block_number_by_timestamp s timestamp = s.reports timestamp and_then λ r. some r.block_number

-- `get_report_details`.
abbrev pub get_report_details : Series → ℕ → Option (ℕ × Bool)
get_report_details s timestamp = s.reports timestamp and_then λ r. some (r.reporter, r.is_disputed)

-- `get_reporter_by_timestamp`.
abbrev pub get_reporter_by_timestamp : Series → ℕ → Option ℕ
get_reporter_by_timestamp s timestamp = s.reports timestamp and_then λ r. some r.reporter

-- `retrieve_data`.
abbrev pub retrieve_data : Oracle → ℕ → ℕ → Option Bytes
retrieve_data o query_id timestamp = o.reported_values_by_timestamp query_id timestamp

-- `get_current_value`.
abbrev pub get_current_value : Oracle → ℕ → Option Bytes
get_current_value o query_id =
    o.last_reported_timestamp query_id and_then λ t. o.reported_values_by_timestamp query_id t

-- `get_reporter_last_timestamp`.
abbrev pub get_reporter_last_timestamp : Staking → ℕ → Option ℕ
get_reporter_last_timestamp s reporter =
    lookup reporter s.staker_details and_then λ i. some i.reporter_last_timestamp

-- `get_reports_submitted_by_address`.
abbrev pub get_reports_submitted_by_address : Staking → ℕ → ℕ
get_reports_submitted_by_address s reporter = elim (lookup reporter s.staker_details) [
  | none ↦ 0
  | some stake_info ↦ stake_info.reports_submitted
]

-- The reference: the last index below `n` whose report is not disputed and older than `timestamp`.
unfoldable pub last_index_before : Series → ℕ → ℕ → Option ℕ
last_index_before s timestamp zero = none
last_index_before s timestamp (suc i) = elim (s.timestamps i) [
  | none ↦ last_index_before s timestamp i
  | some t ↦
      if ltb t timestamp && not (is_in_dispute s t) then some i else last_index_before s timestamp i
]

-- The reference for `previous`: the time of the last report below index `n` that is not disputed.
unfoldable pub last_undisputed : Series → ℕ → Option ℕ
last_undisputed s zero = none
last_undisputed s (suc i) = elim (s.timestamps i) [
  | none ↦ last_undisputed s i
  | some t ↦ if is_in_dispute s t then last_undisputed s i else some t
]

-- The reports of a query identifier stand at the indices below the count, in the order of their
-- times, and each knows the last report before it that is not disputed.
pub record IsSeries (s : Series) : Type 0 where
  pub listed :
      (i : ℕ)
      → i < s.count
      → (t : ℕ) × (r : Report) × (s.timestamps i ≡ some t) × (s.reports t ≡ some r) × (r.index ≡ i)
  pub unlisted : (i : ℕ) → s.count ≤ i → s.timestamps i ≡ none
  pub increasing : (i j t u : ℕ) → s.timestamps i ≡ some t → s.timestamps j ≡ some u → i < j → t < u
  pub reported : (t : ℕ) (r : Report) → s.reports t ≡ some r → s.timestamps r.index ≡ some t
  pub previous :
      (t : ℕ) (r : Report) → s.reports t ≡ some r → r.previous ≡ last_undisputed s r.index
  pub last : s.last_reported_timestamp ≡ last_undisputed s s.count
