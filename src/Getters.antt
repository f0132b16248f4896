-- ===== src/Getters.antt =====
-- The getters of src/impls.rs that read the storage, over the records that hold it; those of one
-- report are in Oracle/Series.antt. An iteration over a storage map has no order that the source
-- relies on: here it is that of the association list.
use tellor_pallet.Base.{
  ℕ, Bool, Option, none, some, List, [], ◌∷◌, ◌and_then◌, unwrap_or, lookup, keys, take,
}
use tellor_pallet.Types.{Bytes, Feed, Tip, StakeInfo, Vote}
use tellor_pallet.Config.{Config}
use tellor_pallet.State.{AutoPay, Oracle, Staking, Governance, Pallet}
use tellor_pallet.Autopay.Tips.{get_current_tip}

-- Autopay.

abbrev pub get_query_id_from_feed_id : AutoPay → ℕ → Option ℕ
get_query_id_from_feed_id a feed_id = a.query_id_from_data_feed_id feed_id

abbrev pub get_data_feed : AutoPay → ℕ → Option Feed
get_data_feed a feed_id =
    a.query_id_from_data_feed_id feed_id and_then λ query_id. a.data_feeds query_id feed_id

abbrev pub get_funded_feeds : AutoPay → List ℕ
get_funded_feeds a = keys a.feeds_with_funding

abbrev pub get_funded_query_ids : AutoPay → List ℕ
get_funded_query_ids a = keys a.query_ids_with_funding

abbrev pub get_past_tip_count : AutoPay → ℕ → ℕ
get_past_tip_count a query_id = a.tip_count query_id

abbrev pub get_past_tip_by_index : AutoPay → ℕ → ℕ → Option Tip
get_past_tip_by_index a query_id index = a.tips query_id index

abbrev pub get_tips_by_address : AutoPay → ℕ → ℕ
get_tips_by_address a user = a.user_tips_total user

abbrev pub get_reward_claimed_status : AutoPay → ℕ → ℕ → ℕ → Bool
get_reward_claimed_status a feed_id query_id timestamp =
    a.data_feed_reward_claimed query_id feed_id timestamp

-- `filter_map`.
abbrev pub filter_map {ℓ κ} : {A : Type ℓ} {B : Type κ} → (A → Option B) → List A → List B
filter_map f [] = []
filter_map f (a ∷ as_) = elim (f a) [ none ↦ filter_map f as_ | some b ↦ b ∷ filter_map f as_ ]

abbrev claim_statuses : AutoPay → ℕ → ℕ → List ℕ → List Bool
claim_statuses a feed_id query_id [] = []
claim_statuses a feed_id query_id (timestamp ∷ timestamps) =
    a.data_feed_reward_claimed query_id feed_id timestamp
    ∷ claim_statuses a feed_id query_id timestamps

module _ {W : Type 0} where
  abbrev pub get_query_data : Pallet W → ℕ → Option Bytes
  get_query_data s query_id = s.query_data query_id

  abbrev pub get_funded_feed_details : Pallet W → List (Feed × Bytes)
  get_funded_feed_details s =
      filter_map
        (λ feed_id. get_data_feed s.autopay feed_id and_then λ feed_detail.
          get_query_id_from_feed_id s.autopay feed_id and_then λ query_id.
          get_query_data s query_id and_then λ query_data. some (feed_detail, query_data))
        (get_funded_feeds s.autopay)

  abbrev pub get_funded_single_tips_info : Pallet W → List (Bytes × ℕ)
  get_funded_single_tips_info s =
      filter_map
        (λ query_id. get_query_data s query_id and_then λ query_data.
          some (query_data, get_current_tip s.autopay s.oracle query_id))
        (get_funded_query_ids s.autopay)

  abbrev pub get_reward_claim_status_list : Config W → AutoPay → ℕ → ℕ → List ℕ → List Bool
  get_reward_claim_status_list c a feed_id query_id timestamps =
      claim_statuses a feed_id query_id (take c.max_claim_timestamps timestamps)

-- Oracle.

abbrev pub get_time_of_last_new_value : Oracle → Option ℕ
get_time_of_last_new_value o = o.time_of_last_new_value

abbrev pub get_reports_submitted_by_address_and_query_id : Oracle → ℕ → ℕ → ℕ
get_reports_submitted_by_address_and_query_id o reporter query_id =
    o.staker_reports_submitted_by_query_id reporter query_id

abbrev pub get_stake_amount : Staking → ℕ
get_stake_amount s = s.stake_amount

abbrev pub get_staker_info : Staking → ℕ → Option StakeInfo
get_staker_info s staker = lookup staker s.staker_details

abbrev pub get_total_stake_amount : Staking → ℕ
get_total_stake_amount s = s.total_stake_amount

abbrev pub get_total_stakers : Staking → ℕ
get_total_stakers s = s.total_stakers

-- Governance.

abbrev pub did_vote : Governance → ℕ → ℕ → ℕ → Bool
did_vote g dispute_id vote_round voter = g.votes dispute_id vote_round voter

abbrev pub get_dispute_fee : Governance → ℕ
get_dispute_fee g = g.dispute_fee

abbrev pub get_dispute_info : Governance → ℕ → Option (ℕ × ℕ × Bytes × ℕ)
get_dispute_info g dispute_id = g.dispute_info dispute_id and_then λ d.
    some (d.query_id, d.timestamp, d.value, d.disputed_reporter)

abbrev pub get_open_disputes_on_id : Governance → ℕ → ℕ
get_open_disputes_on_id g query_id = unwrap_or (g.open_disputes_on_id query_id) 0

abbrev pub get_vote_count : Governance → ℕ
get_vote_count g = g.vote_count

abbrev pub get_vote_info : Governance → ℕ → ℕ → Option Vote
get_vote_info g dispute_id vote_round = g.vote_info dispute_id vote_round

abbrev pub get_vote_rounds : Governance → ℕ → ℕ
get_vote_rounds g dispute_id = g.vote_rounds dispute_id

abbrev pub get_vote_tally_by_address : Governance → ℕ → ℕ
get_vote_tally_by_address g voter = g.vote_tally_by_address voter
