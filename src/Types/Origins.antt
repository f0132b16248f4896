-- ===== src/Types/Origins.antt =====
-- The origins of a dispatchable: FRAME's signed origin, the pallet's own (src/lib.rs), any other.
use tellor_pallet.Base.{ℕ, Bool, true, false}
use tellor_pallet.Types.Errors.{Result, ok, err, DispatchError}

pub data Origin : Type 0 where
  governance staking : Origin
  signed : ℕ → Origin
  other : Origin

-- `EnsureGovernance::try_origin`.
abbrev pub ensure_governance : Origin → Bool
ensure_governance Origin.governance = true
ensure_governance Origin.staking = false
ensure_governance (Origin.signed who) = false
ensure_governance Origin.other = false

-- `EnsureStaking::try_origin`.
abbrev pub ensure_staking : Origin → Bool
ensure_staking Origin.governance = false
ensure_staking Origin.staking = true
ensure_staking (Origin.signed who) = false
ensure_staking Origin.other = false

-- FRAME's `ensure_signed`.
abbrev pub ensure_signed : Origin → Result ℕ
ensure_signed Origin.governance = err DispatchError.bad_origin
ensure_signed Origin.staking = err DispatchError.bad_origin
ensure_signed (Origin.signed who) = ok who
ensure_signed Origin.other = err DispatchError.bad_origin
