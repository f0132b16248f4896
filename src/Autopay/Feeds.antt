-- ===== src/Autopay/Feeds.antt =====
-- `do_fund_feed` of src/impls.rs; `fund_feed` and `setup_data_feed` of src/lib.rs.
use tellor_pallet.Base.{ℕ, not, some, if◌then◌else◌, ltb, ◌==◌, is_some, insert, set, set₂}
use tellor_pallet.Base.Machine.{saturating_add}
use tellor_pallet.Types.{
  Bytes, Result, ok, ◌>>=◌, ◌>>◌, ensure, require, Origin, ensure_signed, Feed, data_feed_funded,
  new_data_feed, query_data_stored, invalid_feed, invalid_amount, invalid_query_id,
  feed_already_exists, invalid_reward, invalid_interval, invalid_window,
}
use tellor_pallet.Contracts.{uint, fixed_bytes, token, end}
use tellor_pallet.Config.{Config, expendable}
use tellor_pallet.State.{Pallet, deposit_event}

module _ {W : Type 0} where
  -- `store_data`.
  unfoldable pub store_data : ℕ → Bytes → Pallet W → Pallet W
  store_data query_id query_data s =
      deposit_event (query_data_stored query_id)
        (record s { query_data = set query_id (some query_data) s.query_data })

module _ {W : Type 0} (c : Config W) where
  unfoldable pub do_fund_feed : ℕ → ℕ → ℕ → ℕ → Pallet W → Result (Pallet W)
  do_fund_feed feed_funder feed_id query_id amount s = do
    feed ← require (s.autopay.data_feeds query_id feed_id) invalid_feed
    ensure (ltb 0 amount) invalid_amount
    let feed' = record feed { balance = saturating_add c.balance_max feed.balance amount }
    world ← c.transfer s.world feed_funder c.tips amount expendable
    ok (
        deposit_event (data_feed_funded query_id feed_id amount feed_funder feed') (record s {
          world = world;
          autopay = record s.autopay {
            feeds_with_funding = insert feed_id tt s.autopay.feeds_with_funding;
            data_feeds = set₂ query_id feed_id (some feed') s.autopay.data_feeds;
            user_tips_total =
                set feed_funder
                  (saturating_add c.balance_max (s.autopay.user_tips_total feed_funder) amount)
                  s.autopay.user_tips_total;
          };
        }))

  unfoldable pub fund_feed : Origin → ℕ → ℕ → ℕ → Pallet W → Result (Pallet W)
  fund_feed origin feed_id query_id amount s = do
    feed_funder ← ensure_signed origin
    do_fund_feed feed_funder feed_id query_id amount s

  -- The identifier of a feed is the hash of its parameters.
  unfoldable pub feed_id_of : ℕ → Feed → ℕ
  feed_id_of query_id f = c.keccak256 (
      c.abi_encode (
        token (fixed_bytes query_id) (
          token (uint f.reward) (
            token (uint f.start_time) (
              token (uint f.interval) (
                token (uint f.window) (
                  token (uint f.price_threshold)
                    (token (uint f.reward_increase_per_second) end))))))))

  -- The new feed, with its index and its query data.
  unfoldable pub put_feed : ℕ → ℕ → Feed → Bytes → ℕ → Pallet W → Pallet W
  put_feed query_id feed_id feed query_data feed_creator s =
      let s1 = store_data query_id query_data (record s {
        autopay = record s.autopay {
          query_id_from_data_feed_id =
              set feed_id (some query_id) s.autopay.query_id_from_data_feed_id;
        };
      }) in
      deposit_event (new_data_feed query_id feed_id query_data feed_creator) (record s1 {
        autopay = record s1.autopay {
          data_feeds = set₂ query_id feed_id (some feed) s1.autopay.data_feeds;
        };
      })

  unfoldable pub setup_data_feed :
      Origin
      → (query_id reward start_time interval window price_threshold : ℕ)
      → (reward_increase_per_second : ℕ) → Bytes
      → (amount : ℕ) → Pallet W
      → Result (Pallet W)
  setup_data_feed origin query_id reward start_time interval window price_threshold
        reward_increase_per_second query_data amount s =
      do
        feed_creator ← ensure_signed origin
        ensure (query_id == c.keccak256 query_data) invalid_query_id
        let feed : Feed = record {
          reward = reward;
          balance = 0;
          start_time = start_time;
          interval = interval;
          window = window;
          price_threshold = price_threshold;
          reward_increase_per_second = reward_increase_per_second;
        }
        let feed_id = feed_id_of query_id feed
        ensure (not (is_some (s.autopay.data_feeds query_id feed_id))) feed_already_exists
        ensure (ltb 0 reward) invalid_reward
        ensure (ltb 0 interval) invalid_interval
        ensure (ltb window interval) invalid_window
        let s1 = put_feed query_id feed_id feed query_data feed_creator s
        if ltb 0 amount then do_fund_feed feed_creator feed_id query_id amount s1 else ok s1
