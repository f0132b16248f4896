-- ===== src/Governance/Dispute.antt =====
-- `begin_dispute` of src/lib.rs.
pub mod Bounds
pub mod Removes
pub mod Forever
pub mod Opens
use tellor_pallet.Base.{
  ℕ, ◌+◌, ◌-◌, ◌*◌, ◌^◌, Bool, true, false, not, Option, none, some, List, ◌∷◌, if◌then◌else◌, leb,
  ltb, ◌==◌, is_some, unwrap_or, ◌and_then◌, lookup, insert, set, set₂,
}
use tellor_pallet.Base.Machine.{
  checked, checked_sub, saturate, saturating_inc, wrapping_add, u8_max, u32_max, u64_max,
}
use tellor_pallet.Types.{
  Bytes, Result, ok, ◌>>=◌, ◌>>◌, no_underflow, no_overflow, ensure, require, Error, DispatchError,
  Origin, ensure_signed, Vote, Dispute, Report, empty_tally, Event, new_dispute, new_dispute_sent,
  not_reporter, no_value_exists, max_vote_rounds_reached, dispute_reporting_period_expired,
  invalid_index, invalid_timestamp, invalid_vote, dispute_round_reporting_period_expired,
  vote_already_executed, invalid_dispute,
}
use tellor_pallet.Contracts
use tellor_pallet.Contracts.{uint, fixed_bytes, token, end, gas_limit_begin_parachain_dispute}
use tellor_pallet.Config.{Config, protect}
use tellor_pallet.Constants.{reporting_lock, days, hours, max_vote_rounds}
use tellor_pallet.State.{Oracle, Governance, Pallet, deposit_event}
use tellor_pallet.Oracle.Series.{series, retrieve_data, get_reporter_by_timestamp}
use tellor_pallet.Oracle.Remove.{remove_value}
use tellor_pallet.Xcm.{call_contract}

-- `fee.saturating_mul(2.saturating_pow(exponent))`.
abbrev pub scale_fee : ℕ → ℕ → ℕ → ℕ
scale_fee balance_max fee exponent =
    saturate balance_max (fee * saturate balance_max (2 ^ exponent))

-- No fee exceeds ten times the dispute fee.
unfoldable pub cap_fee : ℕ → ℕ → ℕ → ℕ
cap_fee balance_max dispute_fee fee =
    let stake_amount = saturate balance_max (dispute_fee * 10) in
    if ltb stake_amount fee then stake_amount else fee

module _ {W : Type 0} (c : Config W) where
  unfoldable pub dispute_id_of : ℕ → ℕ → ℕ
  dispute_id_of query_id timestamp = c.keccak256 (
      c.abi_encode
        (token (uint c.parachain_id) (token (fixed_bytes query_id) (token (uint timestamp) end))))

  -- `VoteRounds::try_mutate`: one more round, of twenty at most.
  unfoldable pub next_round : ℕ → Result ℕ
  next_round vote_rounds = do
    round ← require (checked u8_max (vote_rounds + 1)) max_vote_rounds_reached
    ensure (leb round max_vote_rounds) max_vote_rounds_reached
    ok round

  -- The first round: the dispute is opened, and the value removed. The fee doubles with every
  -- dispute that is open on the query identifier.
  unfoldable pub open_dispute : ℕ → ℕ → ℕ → Pallet W → Result (Pallet W × Dispute × ℕ)
  open_dispute dispute_id query_id timestamp s = do
    let g = s.governance
    age ← no_underflow (checked_sub s.now timestamp)
    ensure (ltb age reporting_lock) dispute_reporting_period_expired
    open_disputes ← no_overflow (checked u32_max (unwrap_or (g.open_disputes_on_id query_id) 0 + 1))
    value ← require (retrieve_data s.oracle query_id timestamp) invalid_timestamp
    disputed_reporter ←
        require (get_reporter_by_timestamp (series s.oracle query_id) timestamp) no_value_exists
    let dispute : Dispute = record {
      query_id = query_id;
      timestamp = timestamp;
      value = value;
      disputed_reporter = disputed_reporter;
      slashed_amount = s.staking.stake_amount;
    }
    (s1, _) ← remove_value c query_id timestamp (record s {
      governance = record g {
        open_disputes_on_id = set query_id (some open_disputes) g.open_disputes_on_id;
        dispute_ids_by_reporter = set₂ disputed_reporter dispute_id true g.dispute_ids_by_reporter;
        dispute_info = set dispute_id (some dispute) g.dispute_info;
      };
    })
    ok (s1, dispute, scale_fee c.balance_max g.dispute_fee (open_disputes - 1))

  -- A later round: within a day of the tally of the round before it, and before its execution.
  unfoldable pub reopen_dispute : ℕ → ℕ → Pallet W → Result (Pallet W × Dispute × ℕ)
  reopen_dispute dispute_id vote_round s = do
    let g = s.governance
    prev_id ← no_underflow (checked_sub vote_round 1)
    prev_vote ← require (g.vote_info dispute_id prev_id) invalid_vote
    age ← no_underflow (checked_sub s.now prev_vote.tally_date)
    ensure (ltb age (1 * days)) dispute_round_reporting_period_expired
    ensure (not prev_vote.executed) vote_already_executed
    dispute ← require (g.dispute_info dispute_id) invalid_dispute
    ok (s, dispute, scale_fee c.balance_max g.dispute_fee (vote_round - 1))

  -- The vote of a new round.
  abbrev pub new_vote : ℕ → ℕ → ℕ → ℕ → Pallet W → Vote
  new_vote dispute_id vote_round fee initiator s = record {
    identifier = dispute_id;
    vote_round = vote_round;
    start_date = s.now;
    block_number = s.block_number;
    fee = fee;
    tally_date = 0;
    users = empty_tally;
    reporters = empty_tally;
    sent = false;
    executed = false;
    result = none;
    initiator = initiator;
  }

  -- The fee is paid, and the round is stored and scheduled eleven hours ahead.
  unfoldable pub enter_round : ℕ → ℕ → ℕ → ℕ → Pallet W → Result (Pallet W)
  enter_round dispute_id vote_round fee initiator s = do
    let g = s.governance
    let capped = cap_fee c.balance_max g.dispute_fee fee
    world ← c.transfer s.world initiator c.dispute_fees capped protect
    ok (record s {
      world = world;
      governance = record g {
        vote_count = saturating_inc u64_max g.vote_count;
        vote_rounds = set dispute_id vote_round g.vote_rounds;
        pending_votes =
            insert dispute_id (vote_round, wrapping_add u64_max s.now (11 * hours)) g.pending_votes;
        vote_info =
            set₂ dispute_id vote_round (some (new_vote dispute_id vote_round capped initiator s))
              g.vote_info;
      };
    })

  unfoldable pub begin_dispute : Origin → ℕ → ℕ → Option ℕ → Pallet W → Result (Pallet W)
  begin_dispute origin query_id timestamp beneficiary s = do
    dispute_initiator ← ensure_signed origin
    let own = lookup dispute_initiator s.staking.staker_details and_then λ i. some i.address
    beneficiary' ← require (elim beneficiary [ none ↦ own | some a ↦ some a ]) not_reporter
    ensure (is_some (s.oracle.reports query_id timestamp)) no_value_exists
    let dispute_id = dispute_id_of query_id timestamp
    vote_round ← next_round (s.governance.vote_rounds dispute_id)
    (s1, dispute, fee) ←
        (if vote_round == 1
          then open_dispute dispute_id query_id timestamp s
          else reopen_dispute dispute_id vote_round s)
    s2 ← enter_round dispute_id vote_round fee dispute_initiator s1
    disputed_staker ←
        require (lookup dispute.disputed_reporter s2.staking.staker_details) not_reporter
    call_contract c c.governance
        (Contracts.begin_parachain_dispute c.abi_encode query_id timestamp dispute.value
          disputed_staker.address beneficiary' dispute.slashed_amount)
        gas_limit_begin_parachain_dispute
        (new_dispute_sent c.governance.para_id c.governance.address)
        (deposit_event (new_dispute dispute_id query_id timestamp dispute.disputed_reporter) s2)
