-- ===== src/Governance/Fees.antt =====
-- The dispute fee: `update_dispute_fee` of src/impls.rs, and the stake amount from the same oracle:
-- `do_update_stake_amount`, the dispatchable `update_stake_amount`.
use tellor_pallet.Base.{ℕ, ◌*◌, ◌/◌, ◌^◌, Bool, ◌&&◌, ◌and_then◌, if◌then◌else◌, leb, ltb, ◌==◌}
use tellor_pallet.Base.Machine.{checked, checked_sub, u256_max}
use tellor_pallet.Types.{
  Result, ok, ◌>>=◌, ◌>>◌, no_underflow, no_overflow, ensure, require, Error, Origin, ensure_signed,
  new_stake_amount, new_dispute_fee, invalid_staking_token_price, invalid_price,
}
use tellor_pallet.Types.Convert.{bytes_to_u256}
use tellor_pallet.Config.{Config}
use tellor_pallet.Constants.{hours}
use tellor_pallet.State.{Pallet, deposit_event}
use tellor_pallet.Oracle.Before.{get_data_before_with_start}
use tellor_pallet.Staking.Amounts.{calculate_dispute_fee}

-- A price of at least 10^16 and below 10^24.
abbrev pub is_price : ℕ → Bool
is_price price = leb (10 ^ 16) price && ltb price (10 ^ 24)

module _ {W : Type 0} (c : Config W) where
  -- The price that a query identifier held twelve hours ago, with the rounds of the search.
  unfoldable pub read_price : ℕ → Error → Pallet W → Result (ℕ × ℕ)
  read_price query_id e s = do
    time ← no_underflow (checked_sub s.now (12 * hours))
    let (found, iterations) = get_data_before_with_start s.oracle query_id time 0
    price ← require (found and_then λ p. bytes_to_u256 p.0) e
    ensure (is_price price) e
    ok (price, iterations)

  unfoldable pub do_update_stake_amount : Pallet W → Result (Pallet W × ℕ)
  do_update_stake_amount s = do
    (price, iterations) ← read_price c.staking_token_price_query_id invalid_staking_token_price s
    scaled ← no_overflow (checked u256_max (c.stake_amount_currency_target * 10 ^ 18))
    let adjusted = scaled / price
    let amount : ℕ =
        if ltb adjusted c.minimum_stake_amount then c.minimum_stake_amount else adjusted
    ok (
      deposit_event (new_stake_amount amount)
          (record s { staking = record s.staking { stake_amount = amount } }),
      iterations,
    )

  unfoldable pub update_dispute_fee : Pallet W → Result (Pallet W × ℕ)
  update_dispute_fee s = do
    (price, iterations) ← read_price c.staking_to_local_token_price_query_id invalid_price s
    fee ← calculate_dispute_fee c s.staking.stake_amount price
    ok (
      (if fee == s.governance.dispute_fee
          then s
          else deposit_event (new_dispute_fee fee)
              (record s { governance = record s.governance { dispute_fee = fee } })),
      iterations,
    )

  unfoldable pub update_stake_amount : Origin → Pallet W → Result (Pallet W)
  update_stake_amount origin s = do
    _ ← ensure_signed origin
    (s1, _) ← do_update_stake_amount s
    (s2, _) ← update_dispute_fee s1
    ok s2
