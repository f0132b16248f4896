-- ===== src/Xcm.antt =====
-- src/xcm/mod.rs and src/xcm/ethereum_xcm.rs: the remote call of a controller contract.
pub mod Origins
use tellor_pallet.Base.{ℕ, ◌*◌, List, [], ◌∷◌, length, leb}
use tellor_pallet.Base.Machine.{saturate, u128_max}
use tellor_pallet.Types.{
  Bytes, Result, ok, err, ◌>>=◌, ◌>>◌, ensure, require, DispatchError, Error, Event, fees_not_met,
  unreachable, send_failure, weighing_failure, max_ethereum_xcm_input_size_exceeded,
}
use tellor_pallet.Contracts.Registry.{parachain, pallet_instance}
use tellor_pallet.Config.{
  Config, ContractLocation, SendError, fees, not_applicable, other_error, sent, refused, Weight,
  Instruction, descend_origin, withdraw_asset, buy_execution, transact, sovereign_account,
}
use tellor_pallet.State.{Pallet, deposit_event}

abbrev pub max_ethereum_xcm_input_size : ℕ
max_ethereum_xcm_input_size = 65_536

abbrev pub send_error : SendError → Error
send_error fees = fees_not_met
send_error not_applicable = unreachable
send_error other_error = send_failure

module _ {W : Type 0} (c : Config W) where
  -- `weight_to_fee`.
  unfoldable pub weight_to_fee : Weight → ℕ
  weight_to_fee weight = saturate u128_max (weight.ref_time * c.xcm_weight_to_asset)

  -- `ethereum_xcm::transact`: the call, behind the index of the pallet that takes it; the input is
  -- bounded by the conversion that the callers make.
  unfoldable pub ethereum_transact : ContractLocation → Bytes → ℕ → Result Bytes
  ethereum_transact contract call_data gas_limit = do
    ensure (leb (length call_data) max_ethereum_xcm_input_size) max_ethereum_xcm_input_size_exceeded
    ok (
        c.ethereum_xcm_pallet_index
        ∷ c.scale_encode_transact (record {
          gas_limit = gas_limit;
          action = contract.address;
          value = 0;
          input = call_data;
        }))

  -- The message whose weight is asked for.
  abbrev pub sample_message : Weight → Bytes → List Instruction
  sample_message weight call =
      descend_origin (parachain c.parachain_id)
      ∷ withdraw_asset 1
      ∷ buy_execution 1 (record { ref_time = 0; proof_size = 0 })
      ∷ transact sovereign_account weight call
      ∷ []

  -- `transact`, to the parachain of the given identifier.
  unfoldable pub transact_message : ℕ → Bytes → ℕ → Result (List Instruction)
  transact_message dest call gas_limit = do
    let transact_weight = c.weigh_transact dest gas_limit
    xcm_weight ← require (c.weigh dest (sample_message transact_weight call)) weighing_failure
    let total_weight = c.add_weight xcm_weight transact_weight
    let amount = weight_to_fee total_weight
    ok (
        withdraw_asset amount
        ∷ buy_execution amount total_weight
        ∷ transact sovereign_account transact_weight call
        ∷ [])

  -- `send_xcm`: from the pallet to the parachain, with an event if the router takes the message.
  unfoldable pub send_xcm : ℕ → List Instruction → Event → Pallet W → Result (Pallet W)
  send_xcm para_id message event s =
      elim (c.send_xcm s.world (pallet_instance c.pallet_index ∷ [])
        (record { parents = 1; interior = parachain para_id ∷ [] }) message) [
          | sent world ↦ ok (deposit_event event (record s { world = world }))
          | refused e ↦ err (DispatchError.pallet (send_error e))
        ]

  -- The call of a contract: the message is built, then sent.
  unfoldable pub call_contract : ContractLocation → Bytes → ℕ → Event → Pallet W → Result (Pallet W)
  call_contract contract call_data gas_limit event s = do
    call ← ethereum_transact contract call_data gas_limit
    message ← transact_message contract.para_id call gas_limit
    send_xcm contract.para_id message event s
