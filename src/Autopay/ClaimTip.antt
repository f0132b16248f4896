-- ===== src/Autopay/ClaimTip.antt =====
-- `claim_tip` of src/lib.rs.
pub mod Steps
pub mod Once
pub mod Sum
pub mod Balances
use tellor_pallet.Base.{
  ℕ, ◌+◌, ◌-◌, ◌*◌, ◌/◌, Bool, true, false, Option, none, some, List, [], ◌∷◌, if◌then◌else◌, leb,
  ltb, ◌==◌, remove, set₂, set₃,
}
use tellor_pallet.Base.Machine.{checked, checked_sub, saturating_add}
use tellor_pallet.Types.{
  Result, ok, ◌>>=◌, ◌>>◌, no_underflow, no_overflow, ensure, require, Origin, ensure_signed, Feed,
  Event, tip_claimed, invalid_feed, insufficient_feed_balance, claim_buffer_not_passed,
  invalid_claimer,
}
use tellor_pallet.Config.{Config, protect}
use tellor_pallet.Constants.{hours}
use tellor_pallet.State.{AutoPay, Pallet, deposit_event}
use tellor_pallet.Oracle.Series.{series, get_reporter_by_timestamp}
use tellor_pallet.Oracle.Remove.{is_time}
use tellor_pallet.Autopay.Rewards.{do_get_reward_amount}
use tellor_pallet.Staking.Stakes.{do_add_staking_rewards}

-- `Some(timestamp) == timestamps.last()`, by the timestamps from this one on. The comparison is of
-- values, so an equal timestamp at the end passes too.
abbrev pub last_of : ℕ → List ℕ → ℕ
last_of t [] = t
last_of t (u ∷ us) = last_of u us

module _ {W : Type 0} (c : Config W) where
  -- The body of the loop: the rewards so far, and the state.
  unfoldable pub claim_one : ℕ → ℕ → ℕ → ℕ → ℕ → ℕ → ℕ → Pallet W → Result (ℕ × Pallet W)
  claim_one reporter feed_id query_id balance last timestamp cumulative s = do
    age ← no_underflow (checked_sub s.now timestamp)
    ensure (ltb (12 * hours) age) claim_buffer_not_passed
    ensure (is_time reporter (get_reporter_by_timestamp (series s.oracle query_id) timestamp))
        invalid_claimer
    reward ← do_get_reward_amount c feed_id query_id timestamp s
    let sum = saturating_add c.balance_max cumulative reward
    let s1 = record s {
      autopay = record s.autopay {
        data_feed_reward_claimed =
            set₃ query_id feed_id timestamp true s.autopay.data_feed_reward_claimed;
      };
    }
    if leb balance sum
        then (do
          ensure (timestamp == last) insufficient_feed_balance
          ok (
            balance,
            record s1 {
              autopay = record s1.autopay {
                feeds_with_funding = remove feed_id s1.autopay.feeds_with_funding;
              };
            },
          ))
        else ok (sum, s1)

  unfoldable pub claim_all : ℕ → ℕ → ℕ → ℕ → ℕ → List ℕ → ℕ → Pallet W → Result (ℕ × Pallet W)
  claim_all reporter feed_id query_id balance last [] cumulative s = ok (cumulative, s)
  claim_all reporter feed_id query_id balance last (t ∷ ts) cumulative s =
      claim_one reporter feed_id query_id balance last t cumulative s >>= λ r.
      claim_all reporter feed_id query_id balance last ts r.0 r.1

  -- The reward less the fee goes to the reporter, the fee to the staking rewards.
  unfoldable pub pay_reward : ℕ → ℕ → Pallet W → Result (Pallet W)
  pay_reward reporter cumulative s = do
    product ← no_overflow (checked c.balance_max (cumulative * c.fee))
    let fee : ℕ = product / 1_000
    amount ← no_underflow (checked_sub cumulative fee)
    world ← c.transfer s.world c.tips reporter amount protect
    do_add_staking_rewards c c.tips fee (record s { world = world })

  unfoldable pub claim_tip : Origin → ℕ → ℕ → List ℕ → Pallet W → Result (Pallet W)
  claim_tip origin feed_id query_id timestamps s = do
    reporter ← ensure_signed origin
    feed ← require (s.autopay.data_feeds query_id feed_id) invalid_feed
    ensure (ltb 0 feed.balance) insufficient_feed_balance
    (cumulative, s1) ←
        claim_all reporter feed_id query_id feed.balance (last_of 0 timestamps) timestamps 0 s
    let feed' = record feed { balance = feed.balance - cumulative }
    s2 ← pay_reward reporter cumulative (record s1 {
      autopay = record s1.autopay {
        data_feeds = set₂ query_id feed_id (some feed') s1.autopay.data_feeds;
      };
    })
    ok (deposit_event (tip_claimed feed_id query_id cumulative reporter) s2)
