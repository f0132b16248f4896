-- ===== src/Oracle/Remove.antt =====
-- `remove_value` of src/impls.rs.
pub mod Marked
pub mod Repoint
pub mod Order
pub mod Unread
use tellor_pallet.Base.{
  ℕ, zero, suc, ◌+◌, ◌-◌, Bool, true, false, not, Option, none, some, List, ◌∷◌, ltb, ◌==◌, set,
  set₂, if◌then◌else◌,
}
use tellor_pallet.Base.Machine.{checked, saturating_add, saturating_inc, u32_max}
use tellor_pallet.Types.{
  Result, ok, err, ◌>>=◌, ◌>>◌, ensure, require, no_overflow, DispatchError, Error, Event,
  value_removed, Report, invalid_timestamp, value_disputed, max_disputed_time_series_reached,
}
use tellor_pallet.Config.{Config}
use tellor_pallet.State.{Oracle, Pallet, deposit_event}

abbrev pub Reports : Type 0
Reports = ℕ → Option Report

-- `Some(timestamp) == o`.
abbrev pub is_time : ℕ → Option ℕ → Bool
is_time timestamp none = false
is_time timestamp (some t) = timestamp == t

-- The loop `for index in start..=end`, by the rounds left: every report after the removed one, up
-- to the first that is not disputed, gets a new `previous`.
unfoldable pub repoint :
    (rounds max : ℕ) → (ℕ → Option ℕ) → Option ℕ → ℕ → ℕ → Reports → Result (Reports × ℕ)
repoint zero max timestamps previous index iterations reports = ok (reports, iterations)
repoint (suc rounds) max timestamps previous index iterations reports =
    elim (ltb max (saturating_inc u32_max iterations)) [
      | true ↦ err (DispatchError.pallet max_disputed_time_series_reached)
      | false ↦ elim (timestamps index) [
        | none ↦ ok (reports, saturating_inc u32_max iterations)
        | some timestamp ↦ elim (reports timestamp) [
          | none ↦ err (DispatchError.pallet invalid_timestamp)
          | some next ↦ elim next.is_disputed [
            | false ↦ ok (
              set timestamp (some (record next { previous = previous })) reports,
              saturating_inc u32_max iterations,
            )
            | true ↦
                repoint rounds max timestamps previous (index + 1)
                  (saturating_inc u32_max iterations)
                  (set timestamp (some (record next { previous = previous })) reports)
          ]
        ]
      ]
    ]

-- The last reported timestamp moves back if it is the one removed.
abbrev pub step_back : ℕ → Option ℕ → Option ℕ → Option ℕ
step_back timestamp previous last = if is_time timestamp last then previous else last

-- The writes to the oracle, with the number of rounds of the loop. The rounds of `start..=end`
-- are `end + 1 - start`.
unfoldable pub remove_report : ℕ → ℕ → ℕ → Oracle → Result (Oracle × ℕ)
remove_report max query_id timestamp o = do
  report ← require (o.reports query_id timestamp) invalid_timestamp
  ensure (not report.is_disputed) value_disputed
  ensure (is_time timestamp (o.reported_timestamps_by_index query_id report.index))
      invalid_timestamp
  start ← no_overflow (checked u32_max (report.index + 1))
  (reports, iterations) ←
      repoint (saturating_add u32_max start max + 1 - start) max
        (o.reported_timestamps_by_index query_id) report.previous start 0 (o.reports query_id)
  ok (
    record o {
      last_reported_timestamp =
          set query_id (step_back timestamp report.previous (o.last_reported_timestamp query_id))
            o.last_reported_timestamp;
      reports =
          set query_id (set timestamp (some (record report { is_disputed = true })) reports)
            o.reports;
      reported_values_by_timestamp = set₂ query_id timestamp none o.reported_values_by_timestamp;
    },
    iterations,
  )

module _ {W : Type 0} (c : Config W) where
  unfoldable pub remove_value : ℕ → ℕ → Pallet W → Result (Pallet W × ℕ)
  remove_value query_id timestamp s = do
    (o, iterations) ← remove_report c.max_disputed_time_series query_id timestamp s.oracle
    ok (deposit_event (value_removed query_id timestamp) (record s { oracle = o }), iterations)
