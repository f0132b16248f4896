-- ===== src/Contracts/Registry.antt =====
-- src/contracts/registry.rs: the registration call, and the bytes of a location's junctions.
pub mod Decode
use tellor_pallet.Base.{ℕ, zero, suc, ◌/◌, ◌%◌, Option, none, some, List, [], ◌∷◌, ◌++◌}
use tellor_pallet.Types.{Bytes, Weights}
use tellor_pallet.Contracts.Abi.{Tokens, uint, bytes, tuple, array, end, token}

-- `NetworkId` of XCM; a hash is a list of bytes.
pub data NetworkId : Type 0 where
  by_genesis : Bytes → NetworkId
  by_fork : ℕ → Bytes → NetworkId
  polkadot kusama westend rococo wococo : NetworkId
  ethereum : ℕ → NetworkId
  bitcoin_core bitcoin_cash : NetworkId

-- `Junction` of XCM, less `Plurality`, at which the source is unreachable.
pub data Junction : Type 0 where
  parachain : ℕ → Junction
  account_id32 : Option NetworkId → Bytes → Junction
  account_index64 : Option NetworkId → ℕ → Junction
  account_key20 : Option NetworkId → Bytes → Junction
  pallet_instance : ℕ → Junction
  general_index : ℕ → Junction
  general_key : ℕ → Bytes → Junction
  only_child : Junction
  global_consensus : NetworkId → Junction

pub record MultiLocation : Type 0 where
  pub parents : ℕ
  pub interior : List Junction

-- `to_be_bytes` of an integer of the given number of bytes.
unfoldable pub to_be_bytes : ℕ → ℕ → Bytes
to_be_bytes zero n = []
to_be_bytes (suc w) n = to_be_bytes w (n / 256) ++ ((n % 256) ∷ [])

unfoldable pub encode_network_id : Option NetworkId → Bytes
unfolding to_be_bytes
encode_network_id none = 0 ∷ []
encode_network_id (some (by_genesis id)) = 1 ∷ id
encode_network_id (some polkadot) = 2 ∷ 2 ∷ []
encode_network_id (some kusama) = 3 ∷ 3 ∷ []
encode_network_id (some (by_fork number hash)) = 4 ∷ 1 ∷ (to_be_bytes 8 number ++ hash)
encode_network_id (some westend) = 5 ∷ 4 ∷ []
encode_network_id (some rococo) = 6 ∷ 5 ∷ []
encode_network_id (some wococo) = 7 ∷ 6 ∷ []
encode_network_id (some (ethereum chain_id)) = 8 ∷ 7 ∷ to_be_bytes 8 chain_id
encode_network_id (some bitcoin_core) = 9 ∷ 8 ∷ []
encode_network_id (some bitcoin_cash) = 10 ∷ 9 ∷ []

-- `scale` is the derived SCALE encoding of a network, which the source uses in one case.
unfoldable pub encode_junction : (Option NetworkId → Bytes) → Junction → Bytes
unfolding to_be_bytes encode_network_id
encode_junction scale (parachain para_id) = 0 ∷ to_be_bytes 4 para_id
encode_junction scale (account_id32 network id) = 1 ∷ (id ++ encode_network_id network)
encode_junction scale (account_index64 network index) =
    2 ∷ (to_be_bytes 8 index ++ encode_network_id network)
encode_junction scale (account_key20 network key) = 3 ∷ (key ++ scale network)
encode_junction scale (pallet_instance i) = 4 ∷ to_be_bytes 1 i
encode_junction scale (general_index i) = 5 ∷ to_be_bytes 16 i
encode_junction scale (general_key length contents) = 6 ∷ length ∷ contents
encode_junction scale only_child = 7 ∷ []
encode_junction scale (global_consensus network_id) = 9 ∷ encode_network_id (some network_id)

unfoldable encode_junctions : (Option NetworkId → Bytes) → List Junction → Tokens
encode_junctions scale [] = end
encode_junctions scale (j ∷ js) =
    token (bytes (encode_junction scale j)) (encode_junctions scale js)

unfoldable encode_weights : Weights → Tokens
encode_weights w = token (uint w.report_stake_deposited) (
    token (uint w.report_staking_withdraw_request) (
      token (uint w.report_stake_withdrawn) (
        token (uint w.report_vote_tallied)
          (token (uint w.report_vote_executed) (token (uint w.report_slash) end)))))

-- `registry::register`.
abbrev pub register :
    (Tokens → Bytes) → (Option NetworkId → Bytes) → ℕ → ℕ → ℕ → MultiLocation → Weights → Bytes
unfolding encode_junctions encode_weights
register encode scale para_id pallet_index weight_to_fee fee_location weights =
    (96 ∷ 114 ∷ 55 ∷ 127 ∷ [])
    ++ encode (
        token (uint para_id) (
          token (uint pallet_index) (
            token (uint weight_to_fee) (
              token
                (tuple (
                  token (uint fee_location.parents)
                    (token (array (encode_junctions scale fee_location.interior)) end)))
                (token (tuple (encode_weights weights)) end)))))
