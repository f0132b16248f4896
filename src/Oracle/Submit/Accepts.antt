-- ===== src/Oracle/Submit/Accepts.antt =====
-- When `submit_value` of src/lib.rs is accepted.
use native.Mathlib.Nat.{le-div_iff_mul-le}
use tellor_pallet.Base.{
  ℕ, ◌-◌, ◌*◌, ◌/◌, ◌≤◌, ◌<◌, ◌≡◌, ◌≢◌, ◌⊎◌, refl, true, none, some, [], ◌∷◌, ◌==◌, ◌||◌, leb,
  arith, lookup, inl, inr,
}
use tellor_pallet.Base.Machine.{u256_max}
use tellor_pallet.Types.{Bytes, ok, StakeInfo, Origin, Result-cases}
use tellor_pallet.Config.{Config}
use tellor_pallet.Constants.{reporting_lock}
use tellor_pallet.State.{Pallet}
use tellor_pallet.Oracle.Submit.{submit_value, ensure_unlocked}

-- A reporter with a stake, whose last report is long enough ago, is not locked.
unlocked :
    (timestamp stake_amount : ℕ) (staker : StakeInfo)
    → 0 < stake_amount
    → stake_amount ≤ staker.staked_balance
    → staker.reporter_last_timestamp ≤ timestamp
    → (timestamp - staker.reporter_last_timestamp) * 1_000 ≤ u256_max
    → reporting_lock * 1_000 / (staker.staked_balance / stake_amount)
      < (timestamp - staker.reporter_last_timestamp) * 1_000
    → ensure_unlocked timestamp stake_amount staker ≡ ok tt
unfolding ensure_unlocked
unlocked timestamp stake_amount staker pos enough past fits late =
    let stakes : 1 ≤ staker.staked_balance / stake_amount =
      (le-div_iff_mul-le pos).1 (omega arith) in
    ground arith

-- A submission is accepted if it is signed by a staker who holds the stake amount, which is not
-- zero, and whose last report is older than the reporting lock, twelve hours, divided by the number
-- of stakes held; its value is not empty, its nonce is zero or the count of reports, its query data
-- has the query identifier as its hash, no report stands at that time, and the time since the last
-- report, in milliseconds, fits 256 bits.
pub submit_value-accepts :
    {W : Type 0} (c : Config W) (reporter query_id nonce : ℕ) (value query_data : Bytes)
    (staker : StakeInfo) (s : Pallet W)
    → value ≢ []
    → (nonce ≡ s.oracle.reported_timestamp_count query_id) ⊎ (nonce ≡ 0)
    → lookup reporter s.staking.staker_details ≡ some staker
    → 0 < s.staking.stake_amount
    → s.staking.stake_amount ≤ staker.staked_balance
    → staker.reporter_last_timestamp ≤ s.now
    → (s.now - staker.reporter_last_timestamp) * 1_000 ≤ u256_max
    → reporting_lock * 1_000 / (staker.staked_balance / s.staking.stake_amount)
      < (s.now - staker.reporter_last_timestamp) * 1_000
    → query_id ≡ c.keccak256 query_data
    → s.oracle.reports query_id s.now ≡ none
    → (s' : Pallet W) × (submit_value c (Origin.signed reporter) query_id value nonce query_data s
        ≡ ok s')
unfolding submit_value
submit_value-accepts c reporter query_id nonce [] query_data staker s filled counted known pos
      enough past fits late hashed free =
    absurd (filled refl)
submit_value-accepts c reporter query_id nonce (b ∷ bs) query_data staker s filled counted known pos
      enough past fits late hashed free =
    let open_ = unlocked s.now s.staking.stake_amount staker pos enough past fits late in
    let number : (nonce == s.oracle.reported_timestamp_count query_id || nonce == 0) ≡ true =
      ground arith in
    let held : leb s.staking.stake_amount staker.staked_balance ≡ true = ground arith in
    let data_of : (query_id == c.keccak256 query_data) ≡ true = ground arith in
    elim (Result-cases
      (submit_value c (Origin.signed reporter) query_id (b ∷ bs) nonce query_data s)) [
        | inl accepted ↦ accepted
        | inr (e, refused) ↦
            absurd (cc (simp (number, known, held, open_, data_of, free) at refused))
      ]
