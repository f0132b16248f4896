-- ===== src/Oracle/Submit.antt =====
-- `submit_value` of src/lib.rs.
pub mod Order
pub mod Reads
pub mod Accepts
use tellor_pallet.Base.{
  ℕ, ◌+◌, ◌-◌, ◌*◌, ◌/◌, Bool, true, false, not, ◌||◌, Option, none, some, List, [], ◌∷◌, ltb, leb,
  ◌==◌, is_some, lookup, insert, set, set₂, if◌then◌else◌, ◌and_then◌,
}
use tellor_pallet.Base.Machine.{
  checked, checked_sub, checked_div, saturating_inc, u32_max, u256_max,
}
use tellor_pallet.Types.{
  Bytes, Result, ok, err, ◌>>=◌, ◌>>◌, ensure, require, no_underflow, no_overflow, no_zero_division,
  Error, Event, new_report, Origin, ensure_signed, Report, StakeInfo, invalid_value, invalid_nonce,
  insufficient_stake, reporter_time_locked, invalid_query_id, timestamp_already_reported,
}
use tellor_pallet.Config.{Config}
use tellor_pallet.Constants.{reporting_lock}
use tellor_pallet.State.{Oracle, Staking, Pallet, deposit_event}

abbrev pub is_empty : Bytes → Bool
is_empty [] = true
is_empty (b ∷ bs) = false

-- The storage that a new report writes: its index, the report, the value, the counters.
unfoldable pub record_report : ℕ → ℕ → ℕ → Bytes → ℕ → Oracle → Oracle
record_report query_id timestamp block_number value reporter o =
    let index : ℕ = o.reported_timestamp_count query_id in
    record o {
      reported_timestamp_count =
          set query_id (saturating_inc u32_max index) o.reported_timestamp_count;
      reported_timestamps_by_index =
          set₂ query_id index (some timestamp) o.reported_timestamps_by_index;
      reports =
          set₂ query_id timestamp
            (some (record {
              index = index;
              block_number = block_number;
              reporter = reporter;
              is_disputed = false;
              previous = o.last_reported_timestamp query_id;
            }))
            o.reports;
      last_reported_timestamp = set query_id (some timestamp) o.last_reported_timestamp;
      reported_values_by_timestamp =
          set₂ query_id timestamp (some value) o.reported_values_by_timestamp;
      time_of_last_new_value = some timestamp;
      staker_reports_submitted_by_query_id =
          set₂ reporter query_id
            (saturating_inc u32_max (o.staker_reports_submitted_by_query_id reporter query_id))
            o.staker_reports_submitted_by_query_id;
    }

-- The lock: a reporter waits for `REPORTING_LOCK` divided by the number of stakes held.
unfoldable pub ensure_unlocked : ℕ → ℕ → StakeInfo → Result (Unit {0})
ensure_unlocked timestamp stake_amount staker = do
  elapsed ← no_underflow (checked_sub timestamp staker.reporter_last_timestamp)
  scaled ← no_overflow (checked u256_max (elapsed * 1_000))
  lock ← no_overflow (checked u256_max (reporting_lock * 1_000))
  stakes ← no_zero_division (checked_div staker.staked_balance stake_amount)
  wait ← no_zero_division (checked_div lock stakes)
  ensure (ltb wait scaled) reporter_time_locked

module _ {W : Type 0} (c : Config W) where
  unfoldable pub submit_value : Origin → ℕ → Bytes → ℕ → Bytes → Pallet W → Result (Pallet W)
  submit_value origin query_id value nonce query_data s = do
    let o = s.oracle
    let timestamp = s.now
    reporter ← ensure_signed origin
    ensure (not (is_empty value)) invalid_value
    ensure (nonce == o.reported_timestamp_count query_id || nonce == 0) invalid_nonce
    staker ← require (lookup reporter s.staking.staker_details) insufficient_stake
    ensure (leb s.staking.stake_amount staker.staked_balance) insufficient_stake
    ensure_unlocked timestamp s.staking.stake_amount staker
    ensure (query_id == c.keccak256 query_data) invalid_query_id
    ensure (not (is_some (o.reports query_id timestamp))) timestamp_already_reported
    let staker' = record staker {
      reporter_last_timestamp = timestamp;
      reports_submitted = saturating_inc u32_max staker.reports_submitted;
    }
    ok (
        deposit_event (new_report query_id timestamp value nonce query_data reporter) (record s {
          oracle = record_report query_id timestamp s.block_number value reporter o;
          staking = record s.staking {
            staker_details = insert reporter staker' s.staking.staker_details;
          };
        }))
