-- ===== src/Autopay/Rewards.antt =====
-- `do_get_reward_amount` and `get_reward_amount` of src/impls.rs.
use tellor_pallet.Base.{
  ℕ, ◌+◌, ◌-◌, ◌*◌, ◌/◌, not, ◌&&◌, none, some, List, [], ◌∷◌, take, if◌then◌else◌, leb, ltb, ◌==◌,
  unwrap_or,
}
use tellor_pallet.Base.Machine.{
  checked, checked_sub, checked_div, saturate, saturating_add, u64_max, u256_max,
}
use tellor_pallet.Types.{
  Result, ok, ◌>>=◌, ◌>>◌, no_underflow, no_overflow, no_zero_division, ensure, require, ok_value,
  Feed, claim_period_expired, invalid_feed, tip_already_claimed, invalid_timestamp, value_disputed,
  invalid_value, value_conversion_error, price_threshold_not_met,
}
use tellor_pallet.Types.Convert.{bytes_to_u256}
use tellor_pallet.Config.{Config}
use tellor_pallet.Constants.{weeks}
use tellor_pallet.State.{Oracle, Pallet}
use tellor_pallet.Oracle.Series.{retrieve_data}
use tellor_pallet.Oracle.Submit.{is_empty}

abbrev pub u16_max : ℕ
u16_max = 0xffff

-- The change from `v2` to `v1`, in hundredths of a percent of `v2`.
unfoldable pub price_change_of : ℕ → ℕ → Result ℕ
price_change_of v1 v2 =
    if v2 == 0
    then ok 10_000
    else if leb v2 v1
    then (do
      product ← no_overflow (checked u256_max (10_000 * (v1 - v2)))
      ok (saturate u16_max (product / v2)))
    else (do
      product ← no_overflow (checked u256_max (10_000 * (v2 - v1)))
      ok (saturate u16_max (product / v2)))

-- The change from the value before the report, where the feed has a threshold.
unfoldable pub price_change : Oracle → ℕ → ℕ → ℕ → ℕ → Result ℕ
price_change o query_id timestamp timestamp_before price_threshold =
    if price_threshold == 0 then ok 0 else (do
      value ← require (retrieve_data o query_id timestamp) invalid_value
      ensure (not (is_empty value)) invalid_value
      v1 ← require (bytes_to_u256 value) value_conversion_error
      let value_before = unwrap_or (retrieve_data o query_id timestamp_before) []
      v2 ← require (bytes_to_u256 value_before) value_conversion_error
      price_change_of v1 v2)

-- The start of the interval that holds a time.
unfoldable pub interval_start : Feed → ℕ → Result ℕ
interval_start feed timestamp = do
  elapsed ← no_underflow (checked_sub timestamp feed.start_time)
  n ← no_zero_division (checked_div elapsed feed.interval)
  offset ← no_overflow (checked u64_max (feed.interval * n))
  no_overflow (checked u64_max (feed.start_time + offset))

-- The reward of the first report within the window, or of one that passes the threshold.
unfoldable pub reward_of : ℕ → Feed → ℕ → ℕ → ℕ → ℕ → Result ℕ
reward_of balance_max feed timestamp timestamp_before start change = do
  time_diff ← no_underflow (checked_sub timestamp start)
  reward ←
      (if ltb time_diff feed.window && ltb timestamp_before start
        then (do
          increase ← no_overflow (checked balance_max (feed.reward_increase_per_second * time_diff))
          ok (saturating_add balance_max feed.reward increase))
        else (do ensure (ltb feed.price_threshold change) price_threshold_not_met; ok feed.reward))
  ok (if ltb feed.balance reward then feed.balance else reward)

module _ {W : Type 0} (c : Config W) where
  unfoldable pub do_get_reward_amount : ℕ → ℕ → ℕ → Pallet W → Result ℕ
  do_get_reward_amount feed_id query_id timestamp s = do
    age ← no_underflow (checked_sub s.now timestamp)
    ensure (ltb age (4 * weeks)) claim_period_expired
    feed ← require (s.autopay.data_feeds query_id feed_id) invalid_feed
    ensure (not (s.autopay.data_feed_reward_claimed query_id feed_id timestamp)) tip_already_claimed
    start ← interval_start feed timestamp
    report ← require (s.oracle.reports query_id timestamp) invalid_timestamp
    ensure (not report.is_disputed) value_disputed
    let timestamp_before : ℕ = unwrap_or report.previous 0
    change ← price_change s.oracle query_id timestamp timestamp_before feed.price_threshold
    reward_of c.balance_max feed timestamp timestamp_before start change

  -- The sum over the timestamps; one that fails adds nothing.
  unfoldable pub sum_rewards : ℕ → ℕ → List ℕ → ℕ → Pallet W → ℕ
  sum_rewards feed_id query_id [] acc s = acc
  sum_rewards feed_id query_id (t ∷ ts) acc s =
      sum_rewards feed_id query_id ts
        (saturating_add c.balance_max acc (ok_value (do_get_reward_amount feed_id query_id t s) 0))
        s

  -- `get_reward_amount`: less the fee, in thousandths.
  unfoldable pub get_reward_amount : ℕ → ℕ → List ℕ → Pallet W → ℕ
  get_reward_amount feed_id query_id timestamps s = elim (s.autopay.data_feeds query_id feed_id) [
    | none ↦ 0
    | some feed ↦
        let cumulative =
          sum_rewards feed_id query_id (take c.max_claim_timestamps timestamps) 0 s in
        let reward : ℕ = if ltb feed.balance cumulative then feed.balance else cumulative in
        reward - saturate c.balance_max (reward * c.fee) / 1_000
  ]
