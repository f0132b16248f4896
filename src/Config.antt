-- ===== src/Config.antt =====
-- `Config` of src/lib.rs, less what only concerns weights: the constants, and the code outside the
-- repository that the pallet calls, each a function. `W` is the state outside the pallet: the
-- balances of the asset and the queues of the XCM router.
use tellor_pallet.Base.{ℕ, Bool, Option, List}
use tellor_pallet.Types.{Bytes, Origin, Result, Weights}
use tellor_pallet.Contracts.{Tokens}
use tellor_pallet.Contracts.Registry.{NetworkId, Junction, MultiLocation}

pub data Preservation : Type 0 where
  expendable protect : Preservation

-- `SendError` of XCM; `other_error` stands for all else.
pub data SendError : Type 0 where
  fees not_applicable other_error : SendError

pub data SendResult (W : Type 0) : Type 0 where
  sent : W → SendResult W
  refused : SendError → SendResult W

pub record Weight : Type 0 where
  pub ref_time : ℕ
  pub proof_size : ℕ

pub data OriginKind : Type 0 where
  native sovereign_account superuser xcm : OriginKind

-- The instructions of XCM that the pallet sends. An asset is the configured one, so its amount
-- is enough.
pub data Instruction : Type 0 where
  descend_origin : Junction → Instruction
  withdraw_asset : ℕ → Instruction
  buy_execution : ℕ → Weight → Instruction
  transact : OriginKind → Weight → Bytes → Instruction

-- `EthereumXcmTransactionV2` of src/xcm/ethereum_xcm.rs; the action is a call of the address, the
-- value zero and the access list none.
pub record EthereumXcmTransaction : Type 0 where
  pub gas_limit : ℕ
  pub action : ℕ
  pub value : ℕ
  pub input : Bytes

-- `ContractLocation` of src/xcm/mod.rs.
pub record ContractLocation : Type 0 where
  pub para_id : ℕ
  pub address : ℕ
  pub network : Option NetworkId

pub record Config (W : Type 0) : Type 0 where
  -- The constants.
  pub balance_max : ℕ
  pub decimals : ℕ
  pub ethereum_xcm_pallet_index : ℕ
  pub fee : ℕ
  pub governance : ContractLocation
  pub initial_dispute_fee : ℕ
  pub max_claim_timestamps : ℕ
  pub max_disputed_time_series : ℕ
  pub minimum_stake_amount : ℕ
  pub parachain_id : ℕ
  pub registry : ContractLocation
  pub stake_amount_currency_target : ℕ
  pub staking_token_price_query_id : ℕ
  pub staking_to_local_token_price_query_id : ℕ
  pub update_stake_amount_interval : ℕ
  pub weight_to_fee : ℕ
  pub xcm_weight_to_asset : ℕ
  pub pallet_index : ℕ
  pub weights : Weights
  -- The accounts derived from the pallet's identifier.
  pub account : ℕ
  pub dispute_fees : ℕ
  pub staking_rewards : ℕ
  pub tips : ℕ
  -- The origins.
  pub register_origin : Origin → Bool
  pub staking_origin : Origin → Bool
  pub governance_origin : Origin → Bool
  -- The asset: source, destination, amount.
  pub transfer : W → ℕ → ℕ → ℕ → Preservation → Result W
  pub balance : W → ℕ → ℕ
  pub minimum_balance : W → ℕ
  -- Hashing and encoding.
  pub keccak256 : Bytes → ℕ
  pub abi_encode : Tokens → Bytes
  pub scale_encode_network : Option NetworkId → Bytes
  pub scale_encode_transact : EthereumXcmTransaction → Bytes
  -- XCM: the weigher, the router, and the re-anchored fee location.
  pub add_weight : Weight → Weight → Weight
  pub weigh_transact : ℕ → ℕ → Weight
  pub weigh : ℕ → List Instruction → Option Weight
  pub send_xcm : W → List Junction → MultiLocation → List Instruction → SendResult W
  pub fee_location : ContractLocation → ℕ → Option MultiLocation
