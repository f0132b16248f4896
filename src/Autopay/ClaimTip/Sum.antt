-- ===== src/Autopay/ClaimTip/Sum.antt =====
-- What a claim sums up: `claim_tip` of src/lib.rs.
use tellor_pallet.Base.{
  ℕ, ◌+◌, ◌≤◌, ◌<◌, ◌≡◌, ◌⊎◌, refl, sym, ap, ◌∙◌, Bool, true, List, [], ◌∷◌, arith, inl, inr, set₃,
  leb, Bool-cases, eq_cases,
}
use tellor_pallet.Base.Machine.{saturating_add}
use tellor_pallet.Types.{Result, ok, Result-cases}
use tellor_pallet.Config.{Config}
use tellor_pallet.State.{Pallet}
use tellor_pallet.Autopay.Rewards.{do_get_reward_amount}
use tellor_pallet.Autopay.ClaimTip.{claim_one, claim_all}
use tellor_pallet.Autopay.ClaimTip.Once.{claimed, claim_one-cases, reward-unclaimed, later}

-- The timestamps all have a reward, and the rewards have the sum.
abbrev pub Rewards : (ℕ → Result ℕ) → List ℕ → ℕ → Type 0
Rewards reward_of [] total = total ≡ 0
Rewards reward_of (t ∷ ts) total =
    (reward : ℕ) × (rest : ℕ) × (reward_of t ≡ ok reward)
    × Rewards reward_of ts rest
    × (total ≡ reward + rest)

Rewards-map :
    (f g : ℕ → Result ℕ) (ts : List ℕ) (total : ℕ)
    → ((t reward : ℕ) → f t ≡ ok reward → g t ≡ ok reward)
    → Rewards f ts total
    → Rewards g ts total
Rewards-map f g [] total h x = x
Rewards-map f g (t ∷ ts) total h (reward, rest, e, x, sum) =
    (reward, rest, h t reward e, Rewards-map f g ts rest h x, sum)

module _ {W : Type 0} (c : Config W) where
  -- The reward of a timestamp, while the others are claimed.
  reward-same :
      (feed_id query_id t : ℕ) (s s1 : Pallet W)
      → s1.now ≡ s.now
      → s1.autopay.data_feeds ≡ s.autopay.data_feeds
      → s1.oracle ≡ s.oracle
      → claimed query_id feed_id s1 t ≡ claimed query_id feed_id s t
      → do_get_reward_amount c feed_id query_id t s1 ≡ do_get_reward_amount c feed_id query_id t s
  unfolding do_get_reward_amount
  reward-same feed_id query_id t s s1 now feeds oracle flag = rw (now, feeds, oracle, flag) refl

  claim_one-sum :
      (reporter feed_id query_id balance last t cumulative cumulative' : ℕ) (s s' : Pallet W)
      → balance ≤ c.balance_max
      → claim_one c reporter feed_id query_id balance last t cumulative s ≡ ok (cumulative', s')
      → (reward : ℕ) × (do_get_reward_amount c feed_id query_id t s ≡ ok reward)
        × (s'.now ≡ s.now)
        × (((balance ≤ cumulative + reward) × (t ≡ last) × (cumulative' ≡ balance))
            ⊎ ((cumulative + reward < balance) × (cumulative' ≡ cumulative + reward)))
  unfolding claim_one
  claim_one-sum reporter feed_id query_id balance last t cumulative cumulative' s s' h e =
      elim (Result-cases (do_get_reward_amount c feed_id query_id t s)) [
        | inr (x, failed) ↦ absurd (ground arith)
        | inl (reward, found) ↦
            let clock : s'.now ≡ s.now = ground arith in
            (
              reward,
              found,
              clock,
              elim (Bool-cases (leb balance (saturating_add c.balance_max cumulative reward))) [
                | inl spent ↦ inl (ground arith, ground arith, ground arith)
                | inr left ↦ inr (ground arith, ground arith)
              ],
            )
      ]

  -- The rewards after a claim are those before it.
  earlier-rewards :
      (reporter feed_id query_id balance last t cumulative cumulative1 : ℕ) (s s1 : Pallet W)
      → claim_one c reporter feed_id query_id balance last t cumulative s ≡ ok (cumulative1, s1)
      → s1.now ≡ s.now
      → (u reward : ℕ) → do_get_reward_amount c feed_id query_id u s1 ≡ ok reward
      → do_get_reward_amount c feed_id query_id u s ≡ ok reward
  earlier-rewards reporter feed_id query_id balance last t cumulative cumulative1 s s1 one clock u
        reward e =
      let (bound, unclaimed, flags, feeds, oracle, staking, world) =
        claim_one-cases c reporter feed_id query_id balance last t cumulative cumulative1 s s1
          one in
      let after = reward-unclaimed c feed_id query_id u reward s1 e in
      let now : claimed query_id feed_id s1 u
          ≡ set₃ query_id feed_id t true s.autopay.data_feed_reward_claimed query_id feed_id u =
        ap (λ (m : ℕ → ℕ → ℕ → Bool). m query_id feed_id u) flags in
      let (before, other) =
        later query_id feed_id t u s.autopay.data_feed_reward_claimed (sym now ∙ after) in
      sym (reward-same feed_id query_id u s s1 clock feeds oracle (after ∙ sym before)) ∙ e

  -- The sum of the rewards, or the balance where that is less, is added to what was claimed.
  pub claim_all-sum :
      (reporter feed_id query_id balance last : ℕ) (ts : List ℕ) (cumulative cumulative' : ℕ)
      (s s' : Pallet W)
      → balance ≤ c.balance_max
      → cumulative ≤ balance
      → claim_all c reporter feed_id query_id balance last ts cumulative s ≡ ok (cumulative', s')
      → (total : ℕ) × Rewards (λ t. do_get_reward_amount c feed_id query_id t s) ts total
        × (((cumulative + total ≤ balance) × (cumulative' ≡ cumulative + total))
            ⊎ ((balance < cumulative + total) × (cumulative' ≡ balance)))
  unfolding claim_all
  claim_all-sum reporter feed_id query_id balance last [] cumulative cumulative' s s' h le e =
      (0, refl, inl (omega arith, ground arith))
  claim_all-sum reporter feed_id query_id balance last (t ∷ ts) cumulative cumulative' s s' h le e =
      elim (Result-cases (claim_one c reporter feed_id query_id balance last t cumulative s)) [
        | inr (x, failed) ↦ absurd (ground arith)
        | inl ((cumulative1, s1), one) ↦
            let (reward, found, clock, case) =
              claim_one-sum reporter feed_id query_id balance last t cumulative cumulative1 s s1 h
                one in
            let bound : cumulative1 ≤ balance = ground arith in
            let (total, sum, ends) =
              claim_all-sum reporter feed_id query_id balance last ts cumulative1 cumulative' s1 s'
                h bound (rw one at e) in
            let earlier =
              earlier-rewards reporter feed_id query_id balance last t cumulative cumulative1 s s1
                one clock in
            (
              reward + total,
              (reward, total, found, Rewards-map _ _ ts total earlier sum, refl),
              elim case [
                | inr (left, grows) ↦ elim ends [
                  | inl (covered, all) ↦
                      inl (omega (arith, grows, covered), omega (arith, all, grows))
                  | inr (short, all) ↦ inr (omega (arith, grows, short), all)
                ]
                | inl (spent, at_last, all) ↦ elim ends [
                  | inl (covered, done) ↦ elim (eq_cases (cumulative + (reward + total)) balance) [
                    | inl exact ↦
                        inl (omega (arith, exact), omega (arith, exact, done, all, covered))
                    | inr other ↦
                        inr (omega (arith, spent, other), omega (arith, done, all, covered))
                  ]
                  | inr (short, done) ↦ inr (omega (arith, spent, short, all), done)
                ]
              ],
            )
      ]
