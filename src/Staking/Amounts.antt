-- ===== src/Staking/Amounts.antt =====
-- Amounts of the staking token in the decimals of the local balance.
use tellor_pallet.Base.{ℕ, ◌-◌, ◌*◌, ◌/◌, ◌^◌, if◌then◌else◌, ltb, ◌==◌}
use tellor_pallet.Base.Machine.{checked, u128_max, u256_max}
use tellor_pallet.Types.{Result, ok, ◌>>=◌, no_overflow}
use tellor_pallet.Types.Convert.{u256_to_balance}
use tellor_pallet.Config.{Config}
use tellor_pallet.Constants.{token_decimals}

unfoldable pub convert_to_decimals : ℕ → ℕ → Result ℕ
convert_to_decimals amount decimals =
    if amount == 0
    then ok amount
    else if ltb decimals token_decimals
    then (do r ← no_overflow (checked u256_max (10 ^ (token_decimals - decimals))); ok (amount / r))
    else if ltb token_decimals decimals
    then (do
      r ← no_overflow (checked u256_max (10 ^ (decimals - token_decimals)))
      no_overflow (checked u256_max (amount * r)))
    else ok amount

module _ {W : Type 0} (c : Config W) where
  unfoldable pub convert : ℕ → Result ℕ
  convert stake_amount = convert_to_decimals stake_amount c.decimals

  -- `unit`.
  unfoldable pub unit : Result ℕ
  unit = no_overflow (checked u128_max (10 ^ c.decimals))

  -- `calculate_dispute_fee`: a tenth of the stake amount at the price.
  unfoldable pub calculate_dispute_fee : ℕ → ℕ → Result ℕ
  calculate_dispute_fee stake_amount price = do
    product ← no_overflow (checked u256_max (stake_amount / 10 * price))
    fee ← convert (product / 10 ^ token_decimals)
    ok (u256_to_balance c.balance_max fee)
