-- ===== src/Autopay/Onetime.antt =====
-- `get_onetime_tip_amount` of src/impls.rs and `claim_onetime_tip` of src/lib.rs.
pub mod Search
pub mod Once
use tellor_pallet.Base.{
  ℕ, zero, suc, ◌+◌, ◌*◌, ◌/◌, true, false, not, ◌||◌, Option, none, some, List, [], ◌∷◌,
  if◌then◌else◌, leb, ltb, ◌==◌, remove, unwrap_or, is_some, ◌and_then◌,
}
use tellor_pallet.Base.Machine.{checked, checked_sub, saturating_add, saturating_inc, u32_max}
use tellor_pallet.Types.{
  Result, ok, err, ◌>>=◌, ◌>>◌, no_underflow, no_overflow, ensure, require, Origin, ensure_signed,
  Tip, Report, onetime_tip_claimed, claim_buffer_not_passed, invalid_timestamp, value_disputed,
  invalid_claimer, no_tips_submitted, invalid_index, tip_already_earned,
  timestamp_ineligible_for_tip, tip_already_claimed, DispatchError,
}
use tellor_pallet.Config.{Config}
use tellor_pallet.Constants.{hours}
use tellor_pallet.State.{Pallet, deposit_event}
use tellor_pallet.Autopay.Tips.{get_current_tip, put_tip}
use tellor_pallet.Autopay.ClaimTip.{pay_reward}

-- The binary search over the tips: the first loop reads a missing tip as one of time zero. The
-- sum of two 32-bit indices is checked. `none` means that the fuel ran out.
unfoldable pub search_tips : ℕ → (ℕ → Option Tip) → ℕ → ℕ → ℕ → Option (Result ℕ)
search_tips zero tips timestamp min max = none
search_tips (suc fuel) tips timestamp min max = elim (checked_sub max min) [
  | none ↦ some (no_underflow none)
  | some d ↦ elim (ltb 1 d) [
    | false ↦ some (ok min)
    | true ↦ elim (checked u32_max (max + min)) [
      | none ↦ some (no_overflow none)
      | some sum ↦
          elim (ltb timestamp (elim (tips (sum / 2)) [ none ↦ 0 | some t ↦ t.timestamp ])) [
            | true ↦ search_tips fuel tips timestamp min (sum / 2)
            | false ↦ search_tips fuel tips timestamp (sum / 2) max
          ]
    ]
  ]
]

-- The second loop fails on a missing tip.
unfoldable pub search_tips_before : ℕ → (ℕ → Option Tip) → ℕ → ℕ → ℕ → Option (Result ℕ)
search_tips_before zero tips timestamp min max = none
search_tips_before (suc fuel) tips timestamp min max = elim (checked_sub max min) [
  | none ↦ some (no_underflow none)
  | some d ↦ elim (ltb 1 d) [
    | false ↦ some (ok min)
    | true ↦ elim (checked u32_max (max + min)) [
      | none ↦ some (no_overflow none)
      | some sum ↦ elim (tips (sum / 2)) [
        | none ↦ some (err (DispatchError.pallet invalid_index))
        | some t ↦ elim (ltb timestamp t.timestamp) [
          | true ↦ search_tips_before fuel tips timestamp min (sum / 2)
          | false ↦ search_tips_before fuel tips timestamp (sum / 2) max
        ]
      ]
    ]
  ]
]

-- Each round halves the distance of two 32-bit bounds, and the last one tests it.
abbrev pub tip_fuel : ℕ
tip_fuel = 34

-- A loop that is out of fuel counts as a panic.
abbrev pub run_search : Option (Result ℕ) → Result ℕ
run_search none = err DispatchError.panicked
run_search (some r) = r

-- The tips of the reports that were disputed in between: those of a range of indices, as a
-- difference of cumulative tips.
unfoldable pub earlier_tips : ℕ → (ℕ → Option Tip) → ℕ → ℕ → ℕ → Result ℕ
earlier_tips balance_max tips timestamp_before backup tip_amount = do
  found ← run_search (search_tips_before tip_fuel tips timestamp_before 0 backup)
  let min = saturating_inc u32_max found
  if ltb min backup
      then (do
        backup_tip ← require (tips backup) invalid_index
        min_tip ← require (tips min) invalid_index
        difference ← no_underflow (checked_sub backup_tip.cumulative_tips min_tip.cumulative_tips)
        no_overflow (checked balance_max (difference + min_tip.amount)))
      else ok tip_amount

module _ {W : Type 0} (c : Config W) where
  -- The amount of a tip that is taken, with those of the disputed reports before it.
  unfoldable pub tip_amount_of : Report → Option ℕ → (ℕ → Option Tip) → ℕ → ℕ → ℕ → Result ℕ
  tip_amount_of report index_before tips timestamp_before min amount = do
    gap ← no_underflow (checked_sub report.index (unwrap_or index_before 0))
    if ltb 1 gap || not (is_some index_before)
        then elim index_before [
          | none ↦ (do backup_tip ← require (tips min) invalid_index; ok backup_tip.cumulative_tips)
          | some index ↦ earlier_tips c.balance_max tips timestamp_before min amount
        ]
        else ok amount

  unfoldable pub get_onetime_tip_amount : ℕ → ℕ → ℕ → Pallet W → Result (ℕ × Pallet W)
  get_onetime_tip_amount query_id timestamp claimer s = do
    age ← no_underflow (checked_sub s.now timestamp)
    ensure (ltb (12 * hours) age) claim_buffer_not_passed
    report ← require (s.oracle.reports query_id timestamp) invalid_timestamp
    ensure (not report.is_disputed) value_disputed
    ensure (claimer == report.reporter) invalid_claimer
    let tip_count = s.autopay.tip_count query_id
    ensure (not (tip_count == 0)) no_tips_submitted
    min ← run_search (search_tips tip_fuel (s.autopay.tips query_id) timestamp 0 tip_count)
    let timestamp_before : ℕ = unwrap_or report.previous 0
    min_tip ← require (s.autopay.tips query_id min) invalid_index
    ensure (ltb timestamp_before min_tip.timestamp) tip_already_earned
    ensure (leb min_tip.timestamp timestamp) timestamp_ineligible_for_tip
    ensure (ltb 0 min_tip.amount) tip_already_claimed
    let a = put_tip query_id min (record min_tip { amount = 0 }) s.autopay
    let index_before =
        s.oracle.reports query_id timestamp_before and_then λ (r : Report). some r.index
    amount ← tip_amount_of report index_before (a.tips query_id) timestamp_before min min_tip.amount
    ok (amount, record s { autopay = a })

  unfoldable pub claim_onetime_all : ℕ → ℕ → List ℕ → ℕ → Pallet W → Result (ℕ × Pallet W)
  claim_onetime_all reporter query_id [] cumulative s = ok (cumulative, s)
  claim_onetime_all reporter query_id (t ∷ ts) cumulative s =
      get_onetime_tip_amount query_id t reporter s >>= λ r.
      claim_onetime_all reporter query_id ts (saturating_add c.balance_max cumulative r.0) r.1

  unfoldable pub claim_onetime_tip : Origin → ℕ → List ℕ → Pallet W → Result (Pallet W)
  claim_onetime_tip origin query_id timestamps s = do
    reporter ← ensure_signed origin
    ensure (ltb 0 (s.autopay.tip_count query_id)) no_tips_submitted
    (cumulative, s1) ← claim_onetime_all reporter query_id timestamps 0 s
    s2 ← pay_reward c reporter cumulative s1
    let a = s2.autopay
    let funded =
        if get_current_tip a s2.oracle query_id == 0
        then remove query_id a.query_ids_with_funding
        else a.query_ids_with_funding
    ok (
        deposit_event (onetime_tip_claimed query_id cumulative reporter)
          (record s2 { autopay = record a { query_ids_with_funding = funded } }))
