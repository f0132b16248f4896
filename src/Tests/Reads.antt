-- ===== src/Tests/Reads.antt =====
-- Runs of the oracle: reports, a removal and a search.
use tellor_pallet.Base.{false, ℕ, ◌*◌, ◌^◌, ◌≡◌, ◌≤◌, refl, true, some, [], ◌∷◌, arith}
use tellor_pallet.Base.Machine.{u256_max, checked}
use tellor_pallet.Types.{Result, is_ok, ok_value, Origin, StakeInfo, new_stake_info}
use tellor_pallet.Types.Convert.{bytes_to_u256, big_endian, bytes_to_u256-big_endian}
use tellor_pallet.Constants.{max_iterations}
use tellor_pallet.State.{Pallet, Oracle}
use tellor_pallet.Oracle.Series.{series, last_index_before, last_undisputed}
use tellor_pallet.Oracle.Invariant.{IsOracle}
use tellor_pallet.Oracle.Submit.{submit_value, record_report, ensure_unlocked}
use tellor_pallet.Oracle.Remove.{remove_value, remove_report, repoint}
use tellor_pallet.Oracle.Before.{
  get_index_for_data_before, get_index_for_data_before_with_start, before_loop, before_turn,
}
use tellor_pallet.Oracle.Submit.Order.{submit_value-IsOracle}
use tellor_pallet.Oracle.Remove.Order.{remove_value-IsOracle}
use tellor_pallet.Oracle.Before.Correct.{index_before-scan}
use tellor_pallet.Oracle.Submit.Reads.{submit_value-reads}
use tellor_pallet.Oracle.Series.{
  retrieve_data, get_current_value, get_reporter_by_timestamp, get_block_number_by_timestamp,
  get_timestamp_index_by_timestamp, is_in_dispute,
}
use tellor_pallet.Tests.{runtime, genesis, after, at}

abbrev pub reporter : StakeInfo
reporter = record (new_stake_info 1) { staked_balance = 200 * 10 ^ 18 }

-- A staker with two stakes.
abbrev pub start : Pallet ℕ
start = record genesis { staking = record genesis.staking { staker_details = (7, reporter) ∷ [] } }

unfoldable pub evaluate : ℕ
unfolding submit_value record_report ensure_unlocked remove_value remove_report repoint
evaluate = 0

abbrev pub submit1 : Result (Pallet ℕ)
submit1 = submit_value runtime (Origin.signed 7) 5 (1 ∷ []) 0 (5 ∷ []) start

abbrev pub reported1 : Pallet ℕ
reported1 = ok_value submit1 start

pub submits1 : is_ok submit1 ≡ true
unfolding evaluate
submits1 = refl

abbrev pub submit2 : Result (Pallet ℕ)
submit2 = submit_value runtime (Origin.signed 7) 5 (2 ∷ []) 1 (5 ∷ []) (at 1_100_000 reported1)

abbrev pub reported2 : Pallet ℕ
reported2 = ok_value submit2 start

pub submits2 : is_ok submit2 ≡ true
unfolding evaluate
submits2 = refl

pub count1 : reported1.oracle.reported_timestamp_count 5 ≡ 1
unfolding evaluate
count1 = refl

pub count2 : reported2.oracle.reported_timestamp_count 5 ≡ 2
unfolding evaluate
count2 = refl

pub start-IsOracle : IsOracle start.oracle start.now
unfolding last_undisputed
start-IsOracle = record {
  ordered = λ q. record {
    listed = λ i h. absurd (omega arith);
    unlisted = λ i h. refl;
    increasing = λ i j t u e f h. absurd (cc);
    reported = λ t r e. absurd (cc);
    previous = λ t r e. absurd (cc);
    last = refl;
  };
  clock = λ q i t e. absurd (cc);
}

-- The invariant holds at any later time.
pub later : (o : Oracle) (now now' : ℕ) → now ≤ now' → IsOracle o now → IsOracle o now'
later o now now' h inv = record {
  ordered = inv.ordered;
  clock = λ q i t e. omega (arith, h, inv.clock q i t e);
}

submit_value-IsOracle_example : IsOracle reported1.oracle reported1.now
submit_value-IsOracle_example =
    submit_value-IsOracle runtime (Origin.signed 7) 5 0 (1 ∷ []) (5 ∷ []) start reported1
      start-IsOracle (omega arith) (after submit1 start submits1)

pub now1 : reported1.now ≡ 1_000_000
unfolding evaluate
now1 = refl

reported1-IsOracle : IsOracle reported1.oracle 1_100_000
reported1-IsOracle = later reported1.oracle reported1.now 1_100_000 (omega (arith, now1)) (
    submit_value-IsOracle runtime (Origin.signed 7) 5 0 (1 ∷ []) (5 ∷ []) start reported1
      start-IsOracle (omega arith) (after submit1 start submits1))

pub reported2-IsOracle : IsOracle reported2.oracle reported2.now
reported2-IsOracle =
    submit_value-IsOracle runtime (Origin.signed 7) 5 1 (2 ∷ []) (5 ∷ []) (at 1_100_000 reported1)
      reported2 reported1-IsOracle (omega (arith, count1)) (after submit2 start submits2)

-- The first report is removed.
abbrev pub removal : Result (Pallet ℕ × ℕ)
removal = remove_value runtime 5 1_000_000 reported2

abbrev pub removed : Pallet ℕ × ℕ
removed = ok_value removal (start, 0)

pub removes : is_ok removal ≡ true
unfolding evaluate
removes = refl

remove_value-IsOracle_example : IsOracle removed.0.oracle removed.0.now
remove_value-IsOracle_example =
    remove_value-IsOracle runtime 5 1_000_000 removed.1 reported2 removed.0 reported2-IsOracle
      (omega (arith, count2)) (after removal (start, 0) removes)

index_before-scan_example :
    (get_index_for_data_before (series reported2.oracle 5) 1_050_000
      ≡ last_index_before (series reported2.oracle 5) 1_050_000 2)
    × ((get_index_for_data_before_with_start (series reported2.oracle 5) 1_050_000 0).1
        ≤ max_iterations)
unfolding evaluate
index_before-scan_example =
    index_before-scan (series reported2.oracle 5) 1_050_000 (reported2-IsOracle.ordered 5)
      (omega (arith, count2))

-- The search finds the first report.
finds : get_index_for_data_before (series reported2.oracle 5) 1_050_000 ≡ some 0
unfolding evaluate get_index_for_data_before before_loop before_turn
finds = refl

bytes_to_u256-big_endian_example :
    bytes_to_u256 (1 ∷ 2 ∷ []) ≡ checked u256_max (big_endian 0 (1 ∷ 2 ∷ []))
bytes_to_u256-big_endian_example = bytes_to_u256-big_endian (1 ∷ 2 ∷ [])

submit_value-reads_example :
    (retrieve_data reported2.oracle 5 1_100_000 ≡ some (2 ∷ []))
    × (get_current_value reported2.oracle 5 ≡ some (2 ∷ []))
    × (get_reporter_by_timestamp (series reported2.oracle 5) 1_100_000 ≡ some 7)
    × (get_block_number_by_timestamp (series reported2.oracle 5) 1_100_000
        ≡ some reported1.block_number)
    × (get_timestamp_index_by_timestamp (series reported2.oracle 5) 1_100_000
        ≡ some (reported1.oracle.reported_timestamp_count 5))
    × (reported2.oracle.reported_timestamps_by_index 5 (reported1.oracle.reported_timestamp_count 5)
        ≡ some 1_100_000)
    × (is_in_dispute (series reported2.oracle 5) 1_100_000 ≡ false)
submit_value-reads_example =
    submit_value-reads runtime 7 5 1 (2 ∷ []) (5 ∷ []) (at 1_100_000 reported1) reported2
      (after submit2 start submits2)
