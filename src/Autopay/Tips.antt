-- ===== src/Autopay/Tips.antt =====
-- `tip` of src/lib.rs and `get_current_tip` of src/impls.rs.
use tellor_pallet.Base.{
  ℕ, ◌+◌, ◌-◌, Option, none, some, if◌then◌else◌, ltb, ◌==◌, insert, set, set₂, unwrap_or,
}
use tellor_pallet.Base.Machine.{checked, saturating_add, saturating_inc, u32_max, u64_max}
use tellor_pallet.Types.{
  Bytes, Result, ok, ◌>>=◌, ◌>>◌, no_overflow, ensure, Origin, ensure_signed, Tip, tip_added,
  invalid_query_id, invalid_amount,
}
use tellor_pallet.Config.{Config, expendable}
use tellor_pallet.State.{AutoPay, Oracle, Pallet, deposit_event}
use tellor_pallet.Autopay.Feeds.{store_data}

-- `get_current_tip`: the last tip, unless a value was reported since.
unfoldable pub get_current_tip : AutoPay → Oracle → ℕ → ℕ
get_current_tip a o query_id =
    if a.tip_count query_id == 0 then 0 else elim (a.tips query_id (a.tip_count query_id - 1)) [
      | none ↦ 0
      | some last_tip ↦
          if ltb (unwrap_or (o.last_reported_timestamp query_id) 0) last_tip.timestamp
          then last_tip.amount
          else 0
    ]

-- A tip at an index.
abbrev pub put_tip : ℕ → ℕ → Tip → AutoPay → AutoPay
put_tip query_id index t a = record a { tips = set₂ query_id index (some t) a.tips }

abbrev pub count_tip : ℕ → AutoPay → AutoPay
count_tip query_id a = record a {
  tip_count = set query_id (saturating_inc u32_max (a.tip_count query_id)) a.tip_count;
}

module _ {W : Type 0} (c : Config W) where
  -- A tip that no report has earned yet grows; otherwise a new one is added.
  unfoldable pub add_tip : ℕ → ℕ → ℕ → ℕ → Option Tip → ℕ → AutoPay → Result AutoPay
  add_tip query_id tip_count amount time none last_reported_timestamp a = do
    cumulative ← no_overflow (checked c.balance_max (0 + amount))
    ok (
        count_tip query_id (
          put_tip query_id tip_count
            (record { amount = amount; timestamp = time; cumulative_tips = cumulative }) a))
  add_tip query_id tip_count amount time (some last_tip) last_reported_timestamp a =
      if ltb last_reported_timestamp last_tip.timestamp
      then ok (
          put_tip query_id (tip_count - 1)
            (record {
              amount = saturating_add c.balance_max last_tip.amount amount;
              timestamp = time;
              cumulative_tips = saturating_add c.balance_max last_tip.cumulative_tips amount;
            })
            a)
      else (do
        cumulative ← no_overflow (checked c.balance_max (last_tip.cumulative_tips + amount))
        ok (
            count_tip query_id (
              put_tip query_id tip_count
                (record { amount = amount; timestamp = time; cumulative_tips = cumulative }) a)))

  -- The first tip of a query identifier, or a further one.
  unfoldable pub enter_tip : ℕ → ℕ → Bytes → Pallet W → Result (Pallet W)
  enter_tip query_id amount query_data s = do
    let a = s.autopay
    let tip_count = a.tip_count query_id
    time ← no_overflow (checked u64_max (s.now + 1))
    if tip_count == 0
        then ok (
            store_data query_id query_data (record s {
              autopay = count_tip query_id (
                  put_tip query_id tip_count
                    (record { amount = amount; timestamp = time; cumulative_tips = amount }) a);
            }))
        else (do
          a' ←
              add_tip query_id tip_count amount time (a.tips query_id (tip_count - 1))
                (unwrap_or (s.oracle.last_reported_timestamp query_id) 0) a
          ok (record s { autopay = a' }))

  unfoldable pub tip : Origin → ℕ → ℕ → Bytes → Pallet W → Result (Pallet W)
  tip origin query_id amount query_data s = do
    tipper ← ensure_signed origin
    ensure (query_id == c.keccak256 query_data) invalid_query_id
    ensure (ltb 0 amount) invalid_amount
    s1 ← enter_tip query_id amount query_data s
    let a = s1.autopay
    let funded =
        if ltb 0 (get_current_tip a s1.oracle query_id)
        then insert query_id tt a.query_ids_with_funding
        else a.query_ids_with_funding
    world ← c.transfer s1.world tipper c.tips amount expendable
    ok (
        deposit_event (tip_added query_id amount query_data tipper) (record s1 {
          world = world;
          autopay = record a {
            query_ids_with_funding = funded;
            user_tips_total =
                set tipper (saturating_add c.balance_max (a.user_tips_total tipper) amount)
                  a.user_tips_total;
          };
        }))
