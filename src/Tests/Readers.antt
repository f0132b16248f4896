-- ===== src/Tests/Readers.antt =====
-- Runs of the searches after a time, of a removal, and of the sample pallet over the oracle.
use tellor_pallet.Base.{
  take, reverse_onto, ℕ, ◌+◌, ◌*◌, ◌≡◌, ◌≢◌, ◌≤◌, ◌⊎◌, refl, true, Option, none, some, [], ◌∷◌,
  arith,
}
use tellor_pallet.Base.Machine.{u32_max, u256_max, saturate}
use tellor_pallet.Types.{Bytes, Origin}
use tellor_pallet.Oracle.Series.{series}
use tellor_pallet.Oracle.Invariant.{IsOracle}
use tellor_pallet.Oracle.Before.{get_data_before, get_index_for_data_before}
use tellor_pallet.Oracle.After.{
  get_index_for_data_after, get_multiple_values_before, after_turn, collect_before, values_of,
}
use tellor_pallet.Oracle.After.Scan.{first_index_after}
use tellor_pallet.Oracle.After.Collect.{standing, collect_before-standing}
use tellor_pallet.Oracle.After.Correct.{index_after-scan}
use tellor_pallet.Types.Convert.{bytes_to_u256}
use tellor_pallet.UsingTellor.{UsingTellor, IsUsingTellor}
use tellor_pallet.UsingTellor.Pallet.{using_tellor, using_tellor-IsUsingTellor}
use tellor_pallet.UsingTellor.Sample.{
  Sample, Outcome, done, configure, do_something, get_price, IsPrice, do_something-IsPrice,
}
use tellor_pallet.Tests.Reads.{reported2, evaluate, count2, reported2-IsOracle, later}

index_after-scan_example :
    get_index_for_data_after (series reported2.oracle 5) 1_050_000
    ≡ first_index_after
        (series reported2.oracle 5)
        1_050_000
        (reported2.oracle.reported_timestamp_count 5)
        0
index_after-scan_example =
    index_after-scan (series reported2.oracle 5) 1_050_000 (reported2-IsOracle.ordered 5)
      (omega (arith, count2))

-- The search finds the second report.
finds : get_index_for_data_after (series reported2.oracle 5) 1_050_000 ≡ some 1
unfolding evaluate get_index_for_data_after after_turn
finds = refl

few :
    (query_id : ℕ)
    → reported2.oracle.reported_timestamp_count query_id
        + reported2.oracle.reported_timestamp_count query_id
      ≤ u32_max
unfolding evaluate
few query_id = ground arith

reports-IsOracle : IsOracle reported2.oracle 1_101_000
unfolding evaluate
reports-IsOracle = later reported2.oracle reported2.now 1_101_000 (omega arith) reported2-IsOracle

-- The oracle, a thousand seconds after the second report.
abbrev reader : UsingTellor
reader = using_tellor reported2.oracle 1_101_000

using_tellor-IsUsingTellor_example : IsUsingTellor reader
using_tellor-IsUsingTellor_example =
    using_tellor-IsUsingTellor reported2.oracle 1_101_000 reports-IsOracle few

-- Both values are read, the oldest first.
values :
    get_multiple_values_before reported2.oracle 5 1_200_000 300_000 10
    ≡ ((1 ∷ []), 1_000_000) ∷ ((2 ∷ []), 1_100_000) ∷ []
unfolding evaluate get_multiple_values_before get_index_for_data_after get_index_for_data_before
    collect_before values_of
values = refl

abbrev sample : Sample
sample = record { configuration = some 5; values = λ a. none; events = [] }

abbrev derived : Sample
derived = record {
  configuration = some 5;
  values = tellor_pallet.Base.set 8 (some 6) λ a. none;
  events = tellor_pallet.UsingTellor.Sample.SampleEvent.value_stored 6 8 ∷ [];
}

-- Three times the price, 2, is stored.
stores : do_something reader (Origin.signed 8) 3 sample ≡ done derived
unfolding evaluate do_something get_data_before get_index_for_data_before bytes_to_u256
stores = refl

do_something-IsPrice_example :
    ((get_price reader 5 ≡ none) × (derived ≡ sample))
    ⊎ ((price : ℕ) × (i : ℕ) × (t : ℕ) × (data_of : Bytes) × IsPrice reader 5 price i t data_of
        × (derived.values 8 ≡ some (saturate u256_max (price * 3)))
        × ((other : ℕ) → other ≢ 8 → derived.values other ≡ sample.values other)
        × (derived.configuration ≡ sample.configuration))
do_something-IsPrice_example =
    do_something-IsPrice reader
      (using_tellor-IsUsingTellor reported2.oracle 1_101_000 reports-IsOracle few) 8 5 3 sample
      derived refl stores

collect_before-standing_example :
    collect_before 3 (series reported2.oracle 5) 0 1 10 0 0 []
    ≡ some (reverse_onto (take 10 (standing (series reported2.oracle 5) 0 2)) [])
collect_before-standing_example =
    collect_before-standing (series reported2.oracle 5) 0 1 10 (omega arith)
