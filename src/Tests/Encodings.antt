-- ===== src/Tests/Encodings.antt =====
-- Runs of the encoding of a junction and of the conversions of locations.
use tellor_pallet.Base.{arith, ℕ, ◌≡◌, refl, ◌==◌, if◌then◌else◌, Option, none, some, [], ◌∷◌}
use tellor_pallet.Types.{Bytes}
use tellor_pallet.Contracts.Registry.{
  NetworkId, by_genesis, by_fork, polkadot, kusama, westend, rococo, wococo, ethereum, bitcoin_core,
  bitcoin_cash, account_key20, encode_junction,
}
use tellor_pallet.Types.{Origin}
use tellor_pallet.Config.{ContractLocation, sovereign_account}
use tellor_pallet.Xcm.Origins.{
  multi_location, MultiLocation-discrete, converted, kept, location_to_origin,
  location_to_origin-contract,
}
use tellor_pallet.Contracts.Registry.Decode.{decode_junction, decode-encode_junction}

-- An encoding of networks that can be read back, with the integers as they are.
abbrev scale : Option NetworkId → Bytes
scale none = []
scale (some (by_genesis id)) = 0 ∷ id
scale (some (by_fork number hash)) = 1 ∷ number ∷ hash
scale (some polkadot) = 2 ∷ []
scale (some kusama) = 3 ∷ []
scale (some westend) = 4 ∷ []
scale (some rococo) = 5 ∷ []
scale (some wococo) = 6 ∷ []
scale (some (ethereum chain_id)) = 7 ∷ chain_id ∷ []
scale (some bitcoin_core) = 8 ∷ []
scale (some bitcoin_cash) = 9 ∷ []

abbrev network_of : ℕ → Bytes → Option (Option NetworkId)
network_of tag [] =
    if tag == 2
    then some (some polkadot)
    else if tag == 3
    then some (some kusama)
    else if tag == 4
    then some (some westend)
    else if tag == 5
    then some (some rococo)
    else if tag == 6
    then some (some wococo)
    else if tag == 8
    then some (some bitcoin_core)
    else if tag == 9
    then some (some bitcoin_cash)
    else if tag == 0
    then some (some (by_genesis []))
    else none
network_of tag (n ∷ b) =
    if tag == 0
    then some (some (by_genesis (n ∷ b)))
    else if tag == 1
    then some (some (by_fork n b))
    else if tag == 7
    then some (some (ethereum n))
    else none

abbrev unscale : Bytes → Option (Option NetworkId)
unscale [] = some none
unscale (tag ∷ b) = network_of tag b

unscale-scale : (network : Option NetworkId) → unscale (scale network) ≡ some network
unscale-scale none = refl
unscale-scale (some (by_genesis [])) = refl
unscale-scale (some (by_genesis (b ∷ id))) = refl
unscale-scale (some (by_fork number hash)) = refl
unscale-scale (some polkadot) = refl
unscale-scale (some kusama) = refl
unscale-scale (some westend) = refl
unscale-scale (some rococo) = refl
unscale-scale (some wococo) = refl
unscale-scale (some (ethereum chain_id)) = refl
unscale-scale (some bitcoin_core) = refl
unscale-scale (some bitcoin_cash) = refl

abbrev key : Bytes
key = 1 ∷ 2 ∷ 3 ∷ 4 ∷ 5 ∷ 6 ∷ 7 ∷ 8 ∷ 9 ∷ 10 ∷ 11 ∷ 12 ∷ 13 ∷ 14 ∷ 15 ∷ 16 ∷ 17 ∷ 18 ∷ 19 ∷ 20 ∷ []

decode-encode_junction_example :
    decode_junction scale unscale (encode_junction scale (account_key20 (some (ethereum 1)) key))
    ≡ some (account_key20 (some (ethereum 1)) key)
decode-encode_junction_example =
    decode-encode_junction scale unscale (account_key20 (some (ethereum 1)) key) unscale-scale refl

abbrev governance_contract : ContractLocation
governance_contract = record { para_id = 2_000; address = 3; network = none }

abbrev staking_contract : ContractLocation
staking_contract = record { para_id = 2_000; address = 4; network = none }

arrives :
    location_to_origin governance_contract Origin.governance
      (multi_location governance_contract)
      sovereign_account
    ≡ converted Origin.governance
unfolding location_to_origin
arrives =
    elim (MultiLocation-discrete (multi_location governance_contract)
      (multi_location governance_contract)) [
        | yes same ↦ ground arith
        | no other ↦ absurd (other refl)
      ]

location_to_origin-contract_example :
    (sovereign_account ≡ sovereign_account)
    × (multi_location governance_contract ≡ multi_location governance_contract)
    × (Origin.governance ≡ Origin.governance)
    × (location_to_origin staking_contract Origin.staking
          (multi_location governance_contract)
          sovereign_account
        ≡ kept (multi_location governance_contract))
location_to_origin-contract_example =
    location_to_origin-contract governance_contract staking_contract Origin.governance
      Origin.staking Origin.governance (multi_location governance_contract) sovereign_account
      (omega arith) (omega arith) (λ e. absurd (cc)) arrives
