-- ===== src/Tests/Blocks.antt =====
-- Runs of a submission, of a block that updates the stake amount, and of the sending of a vote.
use tellor_pallet.Base.{ℕ, ◌*◌, ◌^◌, ◌≡◌, ◌⊎◌, refl, true, [], ◌∷◌, inl, arith}
use tellor_pallet.Types.{
  Bytes, Result, ok, err, DispatchError, is_ok, ok_value, Origin, vote_already_sent,
}
use tellor_pallet.Types.Convert.{bytes_to_u256, read_bytes, push_byte}
use tellor_pallet.Config.{Config}
use tellor_pallet.State.{Pallet}
use tellor_pallet.Oracle.Submit.{submit_value}
use tellor_pallet.Oracle.Submit.Accepts.{submit_value-accepts}
use tellor_pallet.Oracle.Before.{
  get_data_before_with_start, get_index_for_data_before_with_start, index_before_fuel,
}
use tellor_pallet.Staking.Amounts.{calculate_dispute_fee, convert, convert_to_decimals}
use tellor_pallet.Governance.Fees.{do_update_stake_amount, update_dispute_fee, read_price}
use tellor_pallet.Governance.Send.{send_vote, do_send_votes, send_all, due_votes, sort_by_schedule}
use tellor_pallet.Governance.Send.Once.{stay, sends, send_vote-once}
use tellor_pallet.Xcm.{call_contract, send_xcm, transact_message, ethereum_transact, weight_to_fee}
use tellor_pallet.Hooks.{update_is_due, update_both, on_initialize}
use tellor_pallet.Hooks.Updates.{SameParameters, BothUpdates, on_initialize-updates}
use tellor_pallet.Tests.{runtime, genesis, after}
use tellor_pallet.Tests.Reads
use tellor_pallet.Tests.Reads.{start, reporter}
use tellor_pallet.Tests.Votes
use tellor_pallet.Tests.Votes.{opened}

unfoldable evaluate : ℕ
unfolding Reads.evaluate Votes.evaluate bytes_to_u256 read_bytes push_byte
    get_data_before_with_start get_index_for_data_before_with_start index_before_fuel
    calculate_dispute_fee convert convert_to_decimals do_update_stake_amount update_dispute_fee
    read_price send_vote do_send_votes send_all due_votes sort_by_schedule call_contract send_xcm
    transact_message ethereum_transact weight_to_fee update_both on_initialize
evaluate = 0

-- 10^18, in bytes.
abbrev price : Bytes
price = 13 ∷ 224 ∷ 182 ∷ 179 ∷ 167 ∷ 100 ∷ 0 ∷ 0 ∷ []

submit_value-accepts_example :
    (s' : Pallet ℕ) × (submit_value runtime (Origin.signed 7) 5 price 0 (5 ∷ []) start ≡ ok s')
submit_value-accepts_example =
    submit_value-accepts runtime 7 5 0 price (5 ∷ []) reporter start (λ e. absurd (cc)) (inl refl)
      refl (omega arith) (omega arith) (omega arith) (omega arith) (omega arith) refl refl

abbrev submit : Result (Pallet ℕ)
submit = submit_value runtime (Origin.signed 7) 5 price 0 (5 ∷ []) start

-- A block, a day after the price was reported.
abbrev day_after : Pallet ℕ
day_after = record (ok_value submit genesis) { now = 1_090_000 }

-- The price of the staking token is that of the local token too, and updates are on.
abbrev updating : Config ℕ
updating = record runtime {
  update_stake_amount_interval = 3_600;
  staking_to_local_token_price_query_id = 5;
}

-- The update takes place: the stake amount is now worth the target.
target : (on_initialize updating day_after).staking.stake_amount ≡ 500 * 10 ^ 18
unfolding evaluate
target = refl

on_initialize-updates_example :
    SameParameters day_after (on_initialize updating day_after)
    ⊎ ((s2 : Pallet ℕ) × (update_is_due updating day_after ≡ true)
        × BothUpdates updating day_after s2
        × SameParameters s2 (on_initialize updating day_after))
on_initialize-updates_example = on_initialize-updates updating day_after

abbrev sending : Result (Pallet ℕ)
sending = send_vote runtime (9, (1, 0)) opened

sends_it : is_ok sending ≡ true
unfolding evaluate
sends_it = refl

abbrev sent_once : Pallet ℕ
sent_once = ok_value sending genesis

send_vote-once_example :
    send_vote runtime (9, (1, 0)) (do_send_votes runtime 2_000_000 3 sent_once).0
    ≡ err (DispatchError.pallet vote_already_sent)
send_vote-once_example =
    send_vote-once runtime 9 1 0 0 opened sent_once (do_send_votes runtime 2_000_000 3 sent_once).0
      (after sending genesis sends_it) (sends 2_000_000 3 stay)
