-- ===== src/Constants.antt =====
-- src/constants.rs. Times are in seconds.
use tellor_pallet.Base.{ℕ}

abbrev pub minutes : ℕ
minutes = 60

abbrev pub hours : ℕ
hours = 3_600

abbrev pub days : ℕ
days = 86_400

abbrev pub weeks : ℕ
weeks = 604_800

-- `DECIMALS`: those of the staking token.
abbrev pub token_decimals : ℕ
token_decimals = 18

abbrev pub max_iterations : ℕ
max_iterations = 32

abbrev pub max_aggregate_votes_sent_per_block : ℕ
max_aggregate_votes_sent_per_block = 3

abbrev pub max_vote_rounds : ℕ
max_vote_rounds = 20

-- Twelve hours.
abbrev pub reporting_lock : ℕ
reporting_lock = 43_200
