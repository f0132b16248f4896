-- ===== src/Autopay/ClaimTip/Balances.antt =====
-- Where the rewards of a feed go: `claim_tip` of src/lib.rs, over an asset that keeps accounts.
use tellor_pallet.Base.{
  ℕ, ◌+◌, ◌-◌, ◌*◌, ◌/◌, ◌≤◌, ◌≡◌, ◌≢◌, ◌<◌, ◌⊎◌, refl, sym, ap, ◌∙◌, some, List, [], ◌∷◌, arith,
  inl, inr, set₂-self, ltb, Bool-cases,
}
use tellor_pallet.Types.{ok, Result-cases, Feed, signed}
use tellor_pallet.Config.{Config, protect, expendable}
use tellor_pallet.State.{AutoPay, Pallet}
use tellor_pallet.Autopay.ClaimTip.{claim_one, claim_all, claim_tip, pay_reward, last_of}
use tellor_pallet.Autopay.ClaimTip.Once.{claim_one-cases, claim_all-claims, pay_reward-autopay}
use tellor_pallet.Autopay.Rewards.{do_get_reward_amount}
use tellor_pallet.Autopay.ClaimTip.Steps.{claim_tip-Claims}
use tellor_pallet.Autopay.ClaimTip.Sum.{Rewards, claim_all-sum}
use tellor_pallet.Staking.Stakes.{do_add_staking_rewards}
use tellor_pallet.Governance.Outcome.Fees.{IsLedger}

module _ {W : Type 0} (c : Config W) where
  -- The claims themselves move nothing.
  claim_all-world :
      (reporter feed_id query_id balance last : ℕ) (ts : List ℕ) (cumulative cumulative' : ℕ)
      (s s' : Pallet W)
      → claim_all c reporter feed_id query_id balance last ts cumulative s ≡ ok (cumulative', s')
      → s'.world ≡ s.world
  unfolding claim_all
  claim_all-world reporter feed_id query_id balance last [] cumulative cumulative' s s' e =
      let same : s' ≡ s = cc in rw same refl
  claim_all-world reporter feed_id query_id balance last (t ∷ ts) cumulative cumulative' s s' e =
      elim (Result-cases (claim_one c reporter feed_id query_id balance last t cumulative s)) [
        | inr (x, failed) ↦ absurd (ground arith)
        | inl ((cumulative1, s1), one) ↦
            let (bound, unclaimed, flags, feeds, oracle, staking, world) =
              claim_one-cases c reporter feed_id query_id balance last t cumulative cumulative1 s s1
                one in
            claim_all-world reporter feed_id query_id balance last ts cumulative1 cumulative' s1 s'
              (rw one at e)
            ∙ world
      ]

  module _ (ledger : IsLedger c) (tips_apart : c.tips ≢ c.staking_rewards) where
    -- The fee, which is moved unless it is zero.
    add_rewards-balances :
        (amount : ℕ) (s s' : Pallet W)
        → do_add_staking_rewards c c.tips amount s ≡ ok s'
        → (c.balance s'.world c.tips + amount ≡ c.balance s.world c.tips)
          × (c.balance s'.world c.staking_rewards ≡ c.balance s.world c.staking_rewards + amount)
          × ((account : ℕ)
              → account ≢ c.tips
              → account ≢ c.staking_rewards
              → c.balance s'.world account ≡ c.balance s.world account)
    unfolding do_add_staking_rewards
    add_rewards-balances amount s s' e = elim (Bool-cases (ltb 0 amount)) [
      | inr nothing ↦
          let same : s'.world ≡ s.world = ground arith in
          let none_moved : amount ≡ 0 = ground arith in
          rw same (omega (arith, none_moved), omega (arith, none_moved), λ account h k. refl)
      | inl some_moved ↦
          elim (Result-cases (c.transfer s.world c.tips c.staking_rewards amount expendable)) [
            | inr (x, refused) ↦ absurd (ground arith)
            | inl (world, moved) ↦
                let same : s'.world ≡ world = ground arith in
                rw same (
                  ledger.taken moved tips_apart,
                  ledger.given moved tips_apart,
                  λ account h k. ledger.others moved h k,
                )
          ]
    ]

    pay_reward-balances :
        (reporter paid : ℕ) (s s' : Pallet W)
        → c.tips ≢ reporter
        → reporter ≢ c.staking_rewards
        → pay_reward c reporter paid s ≡ ok s'
        → (c.balance s'.world c.tips + paid ≡ c.balance s.world c.tips)
          × (c.balance s'.world reporter + paid * c.fee / 1_000 ≡ c.balance s.world reporter + paid)
          × (c.balance s'.world c.staking_rewards
              ≡ c.balance s.world c.staking_rewards + paid * c.fee / 1_000)
          × ((account : ℕ)
              → account ≢ c.tips
              → account ≢ reporter
              → account ≢ c.staking_rewards
              → c.balance s'.world account ≡ c.balance s.world account)
    unfolding pay_reward
    pay_reward-balances reporter paid s s' h k e =
        let fee : ℕ = paid * c.fee / 1_000 in
        elim (Result-cases (c.transfer s.world c.tips reporter (paid - fee) protect)) [
          | inr (x, refused) ↦ absurd (ground arith)
          | inl (world, moved) ↦
              let covered : fee ≤ paid = ground arith in
              let s1 : Pallet W = record s { world = world } in
              let rest : do_add_staking_rewards c c.tips fee s1 ≡ ok s' = ground arith in
              let (tips, rewards, others) = add_rewards-balances fee s1 s' rest in
              let taken = ledger.taken moved h in
              let given = ledger.given moved h in
              let same_rewards = ledger.others moved (λ x. tips_apart (sym x)) (λ x. k (sym x)) in
              let reporter_kept = others reporter (λ x. h (sym x)) k in
              (
                omega (arith, tips, taken, covered),
                omega (arith, reporter_kept, given, covered),
                rewards ∙ ap (λ (n : ℕ). n + fee) same_rewards,
                (λ account not_tips not_reporter not_rewards.
                    others account not_tips not_rewards
                    ∙ ledger.others moved not_tips not_reporter),
              )
        ]

    -- Over an asset whose transfers take the amount from the one account and add it to the other,
    -- and to no third, where the accounts of the tips, of the staking rewards and of the reporter
    -- are three, and the balance of the feed is a balance that the asset can hold: a claim that is
    -- accepted finds a reward for every timestamp and pays their sum, or the balance of the feed
    -- where that is less. This comes off the balance of the feed and off the account of the tips;
    -- the account of the staking rewards gets the fee, the configured thousandths of it rounded
    -- down, and the reporter the rest. No other account changes.
    pub claim_tip-balances :
        (reporter feed_id query_id : ℕ) (ts : List ℕ) (s s' : Pallet W)
        → c.tips ≢ reporter
        → reporter ≢ c.staking_rewards
        → ((feed : Feed)
            → s.autopay.data_feeds query_id feed_id ≡ some feed
            → feed.balance ≤ c.balance_max)
        → claim_tip c (signed reporter) feed_id query_id ts s ≡ ok s'
        → (feed feed' : Feed) × (paid total : ℕ) × (s.autopay.data_feeds query_id feed_id
            ≡ some feed)
          × (s'.autopay.data_feeds query_id feed_id ≡ some feed')
          × Rewards (λ t. do_get_reward_amount c feed_id query_id t s) ts total
          × (((total ≤ feed.balance) × (paid ≡ total))
              ⊎ ((feed.balance < total) × (paid ≡ feed.balance)))
          × (feed'.balance + paid ≡ feed.balance)
          × (c.balance s'.world c.tips + paid ≡ c.balance s.world c.tips)
          × (c.balance s'.world reporter + paid * c.fee / 1_000 ≡ c.balance s.world reporter + paid)
          × (c.balance s'.world c.staking_rewards
              ≡ c.balance s.world c.staking_rewards + paid * c.fee / 1_000)
          × ((account : ℕ)
              → account ≢ c.tips
              → account ≢ reporter
              → account ≢ c.staking_rewards
              → c.balance s'.world account ≡ c.balance s.world account)
    claim_tip-balances reporter feed_id query_id ts s s' h k fits e =
        let x = claim_tip-Claims c reporter feed_id query_id ts s s' e in
        let (bound, kept, once, feeds) =
          claim_all-claims c reporter feed_id query_id x.feed.balance (last_of 0 ts) ts 0 x.paid s
            x.rewarded (omega arith) x.claims in
        let (total, sum, ends) =
          claim_all-sum c reporter feed_id query_id x.feed.balance (last_of 0 ts) ts 0 x.paid s
            x.rewarded (fits x.feed x.found) (omega arith) x.claims in
        let feed' : Feed = record x.feed { balance = x.feed.balance - x.paid } in
        let before =
          claim_all-world reporter feed_id query_id x.feed.balance (last_of 0 ts) ts 0 x.paid s
            x.rewarded x.claims in
        let written = x.same_autopay ∙ pay_reward-autopay c reporter x.paid _ x.payed x.pays in
        let (tips, reporters, rewards, others) =
          pay_reward-balances reporter x.paid _ x.payed h k x.pays in
        (
          x.feed,
          feed',
          x.paid,
          total,
          x.found,
          ap (λ (a : AutoPay). a.data_feeds query_id feed_id) written
              ∙ set₂-self query_id feed_id (some feed') x.rewarded.autopay.data_feeds,
          sum,
          elim ends [
            | inl (covered, all) ↦ inl (omega (arith, covered), omega (arith, all))
            | inr (short, all) ↦ inr (omega (arith, short), all)
          ],
          omega (arith, bound),
          rw (x.same_world, sym before) tips,
          rw (x.same_world, sym before) reporters,
          rw (x.same_world, sym before) rewards,
          (λ account a b d. rw (x.same_world, sym before) (others account a b d)),
        )
