-- ===== src/Oracle/Submit/Reads.antt =====
-- What is read after a submission: `submit_value` of src/lib.rs and the reads of src/impls.rs.
use tellor_pallet.Base.{ℕ, ◌≡◌, false, some, arith}
use tellor_pallet.Types.{Bytes, ok, signed}
use tellor_pallet.Config.{Config}
use tellor_pallet.State.{Oracle, Pallet}
use tellor_pallet.Oracle.Series.{
  series, is_in_dispute, retrieve_data, get_reporter_by_timestamp, get_timestamp_index_by_timestamp,
  get_current_value, get_block_number_by_timestamp,
}
use tellor_pallet.Oracle.Submit.{record_report, submit_value}

module _ (query_id timestamp block_number reporter : ℕ) (value : Bytes) (o : Oracle) where
  abbrev written : Oracle
  written = record_report query_id timestamp block_number value reporter o

  -- The reads of a report that was just written.
  record_report-reads :
      (retrieve_data written query_id timestamp ≡ some value)
      × (get_current_value written query_id ≡ some value)
      × (get_reporter_by_timestamp (series written query_id) timestamp ≡ some reporter)
      × (get_block_number_by_timestamp (series written query_id) timestamp ≡ some block_number)
      × (get_timestamp_index_by_timestamp (series written query_id) timestamp
          ≡ some (o.reported_timestamp_count query_id))
      × (written.reported_timestamps_by_index query_id (o.reported_timestamp_count query_id)
          ≡ some timestamp)
      × (is_in_dispute (series written query_id) timestamp ≡ false)
  unfolding record_report
  record_report-reads = (
    ground arith,
    ground arith,
    ground arith,
    ground arith,
    ground arith,
    ground arith,
    ground arith,
  )

module _ {W : Type 0} (c : Config W) where
  -- After a submission that is accepted, the value is read back at the time of the submission and
  -- as the current value, with its reporter, its block and its index, from which the time is read
  -- back, and it is not disputed.
  pub submit_value-reads :
      (reporter query_id nonce : ℕ) (value query_data : Bytes) (s s' : Pallet W)
      → submit_value c (signed reporter) query_id value nonce query_data s ≡ ok s'
      → (retrieve_data s'.oracle query_id s.now ≡ some value)
        × (get_current_value s'.oracle query_id ≡ some value)
        × (get_reporter_by_timestamp (series s'.oracle query_id) s.now ≡ some reporter)
        × (get_block_number_by_timestamp (series s'.oracle query_id) s.now ≡ some s.block_number)
        × (get_timestamp_index_by_timestamp (series s'.oracle query_id) s.now
            ≡ some (s.oracle.reported_timestamp_count query_id))
        × (s'.oracle.reported_timestamps_by_index query_id
              (s.oracle.reported_timestamp_count query_id)
            ≡ some s.now)
        × (is_in_dispute (series s'.oracle query_id) s.now ≡ false)
  unfolding submit_value
  submit_value-reads reporter query_id nonce value query_data s s' e =
      let same : s'.oracle ≡ record_report query_id s.now s.block_number value reporter s.oracle =
        ground arith in
      rw same (record_report-reads query_id s.now s.block_number reporter value s.oracle)
