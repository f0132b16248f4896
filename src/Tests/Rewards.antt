-- ===== src/Tests/Rewards.antt =====
-- A claim of a feed's reward over an asset that keeps accounts.
use tellor_pallet.Base.{ℕ, ◌+◌, ◌*◌, ◌/◌, ◌≡◌, ◌≢◌, ◌≤◌, ◌<◌, ◌⊎◌, refl, true, some, [], ◌∷◌, arith}
use tellor_pallet.Types.{Result, is_ok, ok_value, signed, Feed}
use tellor_pallet.State.{Pallet}
use tellor_pallet.Autopay.ClaimTip.{claim_tip}
use tellor_pallet.Autopay.ClaimTip.Balances.{claim_tip-balances}
use tellor_pallet.Autopay.Rewards.{do_get_reward_amount}
use tellor_pallet.Autopay.ClaimTip.Sum.{Rewards}
use tellor_pallet.Tests.{after}
use tellor_pallet.Tests.Claims
use tellor_pallet.Tests.Claims.{funded, feed}
use tellor_pallet.Tests.Ledger.{Accounts, bank, bank-IsLedger, pay}

unfoldable evaluate : ℕ
unfolding Claims.evaluate pay
evaluate = 0

abbrev endowed : Pallet Accounts
endowed = record {
  autopay = funded.autopay;
  oracle = funded.oracle;
  staking = funded.staking;
  governance = funded.governance;
  query_data = funded.query_data;
  world = λ a. 10_000;
  now = funded.now;
  block_number = funded.block_number;
  events = [];
}

abbrev claim : Result (Pallet Accounts)
claim = claim_tip bank (signed 7) 4 5 (1_000_000 ∷ []) endowed

claims : is_ok claim ≡ true
unfolding evaluate
claims = refl

abbrev rewarded : Pallet Accounts
rewarded = ok_value claim endowed

-- The reward is paid in full: the fee of it, a hundredth, is below one.
pays_reward : rewarded.world 7 ≡ 10_010
unfolding evaluate
pays_reward = refl

fits : (f : Feed) → endowed.autopay.data_feeds 5 4 ≡ some f → f.balance ≤ bank.balance_max
unfolding evaluate
fits f e = ground arith

claim_tip-balances_example :
    (feed0 feed' : Feed) × (paid total : ℕ) × (endowed.autopay.data_feeds 5 4 ≡ some feed0)
    × (rewarded.autopay.data_feeds 5 4 ≡ some feed')
    × Rewards (λ t. do_get_reward_amount bank 4 5 t endowed) (1_000_000 ∷ []) total
    × (((total ≤ feed0.balance) × (paid ≡ total))
        ⊎ ((feed0.balance < total) × (paid ≡ feed0.balance)))
    × (feed'.balance + paid ≡ feed0.balance)
    × (rewarded.world 93 + paid ≡ 10_000)
    × (rewarded.world 7 + paid * 10 / 1_000 ≡ 10_000 + paid)
    × (rewarded.world 92 ≡ 10_000 + paid * 10 / 1_000)
    × ((account : ℕ) → account ≢ 93 → account ≢ 7 → account ≢ 92 → rewarded.world account ≡ 10_000)
claim_tip-balances_example =
    claim_tip-balances bank bank-IsLedger (λ e. absurd (omega (arith, e))) 7 4 5 (1_000_000 ∷ [])
      endowed rewarded (λ e. absurd (omega (arith, e))) (λ e. absurd (omega (arith, e))) fits
      (after claim endowed claims)
