-- ===== src/Types/Errors.antt =====
-- The errors of src/lib.rs, and the results that carry them. A dispatchable that fails leaves
-- the storage as it was (FRAME runs it in a storage layer), so an error carries no state.
use tellor_pallet.Base.{◌≡◌, refl, ◌⊎◌, inl, inr, Bool, true, false, Option, none, some, ℕ}

pub data Error : Type 0 where
  claim_buffer_not_passed claim_period_expired feed_already_exists : Error
  insufficient_feed_balance invalid_amount invalid_claimer invalid_feed invalid_index : Error
  invalid_interval invalid_reward invalid_query_id invalid_timestamp invalid_window : Error
  no_tips_submitted price_threshold_not_met timestamp_ineligible_for_tip : Error
  tip_already_claimed tip_already_earned value_conversion_error value_disputed : Error
  invalid_address insufficient_stake invalid_nonce invalid_price : Error
  invalid_staking_token_price invalid_value max_disputed_time_series_reached : Error
  no_withdrawal_requested reporter_time_locked timestamp_already_reported : Error
  withdrawal_period_pending : Error
  already_voted dispute_reporting_period_expired : Error
  dispute_round_reporting_period_expired invalid_dispute invalid_vote : Error
  max_vote_rounds_reached not_reporter no_value_exists tally_dispute_period_active : Error
  vote_already_executed vote_already_sent vote_already_tallied vote_not_tallied : Error
  voting_period_active : Error
  fees_not_met junction_overflow max_ethereum_xcm_input_size_exceeded send_failure : Error
  unreachable weighing_failure : Error

pub data ArithmeticError : Type 0 where
  underflow overflow division_by_zero : ArithmeticError

-- `token` stands for an error of the asset's own, `panicked` for an abort of the call: the
-- operators `+` and `*` of `U256` panic on overflow.
pub data DispatchError : Type 0 where
  pallet : Error → DispatchError
  arithmetic : ArithmeticError → DispatchError
  token : ℕ → DispatchError
  bad_origin : DispatchError
  panicked : DispatchError

pub data Result {ℓ} (A : Type ℓ) : Type ℓ where
  ok : A → Result A
  err : DispatchError → Result A

infixl 5 ◌>>=◌ ◌>>◌
-- `?`: an error ends the dispatchable.
abbrev pub ◌>>=◌ {ℓ κ} : {S : Type ℓ} {T : Type κ} → Result S → (S → Result T) → Result T
err failure >>= rest = err failure
ok value >>= rest = rest value

abbrev pub ◌>>◌ {ℓ} : {T : Type ℓ} → Result (Unit {0}) → Result T → Result T
err failure >> rest = err failure
ok done >> rest = rest

-- `ensure!`.
abbrev pub ensure : Bool → Error → Result (Unit {0})
ensure true e = ok tt
ensure false e = err (DispatchError.pallet e)

abbrev pub ensure_origin : Bool → Result (Unit {0})
ensure_origin true = ok tt
ensure_origin false = err DispatchError.bad_origin

abbrev pub ok_or {ℓ} : {A : Type ℓ} → Option A → DispatchError → Result A
ok_or none e = err e
ok_or (some a) e = ok a

-- `ok_or` with an error of the pallet.
abbrev pub require {ℓ} : {A : Type ℓ} → Option A → Error → Result A
require o e = ok_or o (DispatchError.pallet e)

abbrev pub no_underflow {ℓ} : {A : Type ℓ} → Option A → Result A
no_underflow o = ok_or o (DispatchError.arithmetic ArithmeticError.underflow)

abbrev pub no_overflow {ℓ} : {A : Type ℓ} → Option A → Result A
no_overflow o = ok_or o (DispatchError.arithmetic ArithmeticError.overflow)

abbrev pub no_zero_division {ℓ} : {A : Type ℓ} → Option A → Result A
no_zero_division o = ok_or o (DispatchError.arithmetic ArithmeticError.division_by_zero)

abbrev pub no_panic {ℓ} : {A : Type ℓ} → Option A → Result A
no_panic o = ok_or o DispatchError.panicked

abbrev pub is_ok {ℓ} : {A : Type ℓ} → Result A → Bool
is_ok (ok a) = true
is_ok (err e) = false

-- `Result::ok`, `unwrap_or_default`.
abbrev pub ok_value {ℓ} : {A : Type ℓ} → Result A → A → A
ok_value (ok a) d = a
ok_value (err e) d = d

pub Result-cases {ℓ} :
    {A : Type ℓ} (m : Result A) → ((a : A) × (m ≡ ok a)) ⊎ ((e : DispatchError) × (m ≡ err e))
Result-cases (ok a) = inl (a, refl)
Result-cases (err e) = inr (e, refl)
