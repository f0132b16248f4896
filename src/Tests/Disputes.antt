-- ===== src/Tests/Disputes.antt =====
-- A history of the oracle: two reports, and a dispute of the second.
use tellor_pallet.Base.{ℕ, ◌≡◌, refl, true, none, some, [], ◌∷◌, arith}
use tellor_pallet.Types.{Result, is_ok, ok_value, Origin}
use tellor_pallet.State.{Pallet}
use tellor_pallet.Oracle.Invariant.{IsOracle}
use tellor_pallet.Oracle.Series.{series, is_in_dispute, retrieve_data}
use tellor_pallet.Oracle.Submit.{submit_value}
use tellor_pallet.Oracle.Remove.Unread.{Unread}
use tellor_pallet.Governance.Dispute.Forever.{remove_value-forever}
use tellor_pallet.Xcm.{call_contract, send_xcm, transact_message, ethereum_transact, weight_to_fee}
use tellor_pallet.Governance.Dispute.{begin_dispute, open_dispute, dispute_id_of}
use tellor_pallet.Governance.Dispute.Removes.{
  History, begin, then_, submitted, disputed, waited, History-IsOracle,
}
use tellor_pallet.Tests.{runtime, genesis, after, at}
use tellor_pallet.Tests.Reads
use tellor_pallet.Tests.Reads.{
  start, start-IsOracle, reported1, reported2, submit1, submits1, submit2, submits2, count1, count2,
  now1,
}
use tellor_pallet.Tests.Votes

unfoldable pub evaluate : ℕ
unfolding Reads.evaluate Votes.evaluate begin_dispute open_dispute dispute_id_of call_contract
    send_xcm transact_message ethereum_transact weight_to_fee
evaluate = 0

abbrev pub dispute : Result (Pallet ℕ)
dispute = begin_dispute runtime (Origin.signed 8) 5 1_100_000 (some 1) reported2

pub disputes : is_ok dispute ≡ true
unfolding evaluate
disputes = refl

abbrev pub removed : Pallet ℕ
removed = ok_value dispute genesis

-- The value of the second report is gone.
gone : retrieve_data removed.oracle 5 1_100_000 ≡ none
unfolding evaluate
gone = refl

abbrev history : History runtime start removed
history =
    then_
      (then_
        (then_
          (then_ begin (
            submitted (Origin.signed 7) 5 0 (1 ∷ []) (5 ∷ []) (omega arith)
              (after submit1 start submits1)))
          (waited 1_100_000 reported1.block_number (omega (arith, now1))))
        (submitted (Origin.signed 7) 5 1 (2 ∷ []) (5 ∷ []) (omega (arith, count1))
          (after submit2 start submits2)))
      (disputed (Origin.signed 8) 5 1_100_000 (some 1) (omega (arith, count2))
        (after dispute genesis disputes))

History-IsOracle_example : IsOracle removed.oracle removed.now
History-IsOracle_example = History-IsOracle runtime start removed start-IsOracle history

-- The first value is removed, and then another one submitted.
abbrev resubmit : Result (Pallet ℕ)
resubmit =
    submit_value runtime (Origin.signed 7) 5 (3 ∷ []) 2 (5 ∷ []) (at 1_200_000 Reads.removed.0)

resubmits : is_ok resubmit ≡ true
unfolding evaluate
resubmits = refl

count3 : Reads.removed.0.oracle.reported_timestamp_count 5 ≡ 2
unfolding evaluate
count3 = refl

now3 : Reads.removed.0.now ≡ 1_100_000
unfolding evaluate
now3 = refl

abbrev resubmitted : Pallet ℕ
resubmitted = ok_value resubmit genesis

remove_value-forever_example :
    (retrieve_data resubmitted.oracle 5 1_000_000 ≡ none)
    × (is_in_dispute (series resubmitted.oracle 5) 1_000_000 ≡ true)
    × Unread resubmitted.oracle 5 1_000_000
remove_value-forever_example =
    remove_value-forever runtime 5 1_000_000 Reads.removed.1 reported2 Reads.removed.0 resubmitted
      (after Reads.removal (start, 0) Reads.removes)
      (then_ (then_ begin (waited 1_200_000 Reads.removed.0.block_number (omega (arith, now3)))) (
        submitted (Origin.signed 7) 5 2 (3 ∷ []) (5 ∷ []) (omega (arith, count3))
          (after resubmit genesis resubmits)))
