-- ===== src/Hooks.antt =====
-- `on_initialize` and `register` of src/lib.rs.
pub mod Updates
use tellor_pallet.Base.{
  ℕ, ◌*◌, Bool, ◌&&◌, Option, List, [], ◌∷◌, if◌then◌else◌, leb, ltb, unwrap_or,
}
use tellor_pallet.Base.Machine.{wrapping_add, u64_max}
use tellor_pallet.Types.{
  Result, ok, ◌>>=◌, ◌>>◌, ok_value, ensure_origin, require, Origin, registration_sent,
  junction_overflow,
}
use tellor_pallet.Contracts.{gas_limit_register}
use tellor_pallet.Contracts.Registry
use tellor_pallet.Config.{Config, protect}
use tellor_pallet.Constants.{hours, max_aggregate_votes_sent_per_block}
use tellor_pallet.State.{Pallet}
use tellor_pallet.Governance.Fees.{do_update_stake_amount, update_dispute_fee}
use tellor_pallet.Governance.Send.{do_send_votes}
use tellor_pallet.Xcm.{call_contract}

module _ {W : Type 0} (c : Config W) where
  -- `interval > 0 && timestamp >= last + max(interval, 12 hours)`.
  abbrev pub update_is_due : Pallet W → Bool
  update_is_due s =
      let interval = c.update_stake_amount_interval in
      let wait : ℕ = if leb (12 * hours) interval then interval else 12 * hours in
      ltb 0 interval && leb (wrapping_add u64_max s.oracle.last_stake_amount_update wait) s.now

  -- What the storage layer encloses: both updates take place, or neither.
  unfoldable pub update_both : Pallet W → Result (Pallet W)
  update_both s = do
    (s1, _) ← do_update_stake_amount c s
    (s2, _) ← update_dispute_fee c s1
    ok (record s2 { oracle = record s2.oracle { last_stake_amount_update = s.now } })

  unfoldable pub on_initialize : Pallet W → Pallet W
  on_initialize s =
      let s1 = if update_is_due s then ok_value (update_both s) s else s in
      (do_send_votes c s1.now max_aggregate_votes_sent_per_block s1).0

  -- The sub-accounts are brought up to the minimum balance.
  unfoldable pub endow : List ℕ → W → Result W
  endow [] world = ok world
  endow (account ∷ accounts) world =
      (if ltb (c.balance world account) (c.minimum_balance world)
        then c.transfer world c.account account (c.minimum_balance world) protect
        else ok world)
      >>= endow accounts

  unfoldable pub register : Origin → Option ℕ → Pallet W → Result (Pallet W)
  register origin gas_limit s = do
    ensure_origin (c.register_origin origin)
    world ← endow (c.dispute_fees ∷ c.staking_rewards ∷ c.tips ∷ []) s.world
    location ← require (c.fee_location c.registry c.parachain_id) junction_overflow
    call_contract c c.registry
        (Registry.register c.abi_encode c.scale_encode_network c.parachain_id c.pallet_index
          c.weight_to_fee location c.weights)
        (unwrap_or gas_limit gas_limit_register)
        (registration_sent c.registry.para_id c.registry.address c.weights)
        (record s { world = world })
