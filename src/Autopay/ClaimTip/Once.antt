-- ===== src/Autopay/ClaimTip/Once.antt =====
-- A reward of a feed is claimed once: `claim_tip` of src/lib.rs.
use tellor_pallet.Base.{
  ℕ, ◌≤◌, ◌≡◌, ◌≢◌, refl, sym, ap, ◌∙◌, Bool, true, false, List, [], ◌∷◌, arith, set₃, inl, inr,
  set₃-self,
}
use tellor_pallet.Types.{ok, Result-cases, Feed, signed}
use tellor_pallet.Config.{Config}
use tellor_pallet.State.{Pallet}
use tellor_pallet.Autopay.Rewards.{do_get_reward_amount, reward_of}
use tellor_pallet.Autopay.ClaimTip.{claim_one, claim_all, claim_tip, pay_reward, last_of}
use tellor_pallet.Autopay.ClaimTip.Steps.{claim_tip-Claims}
use tellor_pallet.Staking.Stakes.{do_add_staking_rewards}

-- A reward is the feed's balance at most.
reward_of-le :
    (balance_max : ℕ) (feed : Feed) (timestamp timestamp_before start change reward : ℕ)
    → reward_of balance_max feed timestamp timestamp_before start change ≡ ok reward
    → reward ≤ feed.balance
unfolding reward_of
reward_of-le balance_max feed timestamp timestamp_before start change reward e = ground arith

-- The claimed rewards of a feed, by their timestamps.
abbrev pub claimed : {W : Type 0} → ℕ → ℕ → Pallet W → ℕ → Bool
claimed query_id feed_id s t = s.autopay.data_feed_reward_claimed query_id feed_id t

abbrev pub Fresh : ℕ → List ℕ → Type 0
Fresh t [] = Unit {0}
Fresh t (u ∷ us) = (u ≢ t) × Fresh t us

-- The timestamps differ from each other, and were unclaimed before and are claimed afterwards.
abbrev pub ClaimedOnce : (ℕ → Bool) → (ℕ → Bool) → List ℕ → Type 0
ClaimedOnce m m' [] = Unit {0}
ClaimedOnce m m' (t ∷ ts) = (m t ≡ false) × (m' t ≡ true) × Fresh t ts × ClaimedOnce m m' ts

ClaimedOnce-earlier :
    (t : ℕ) (m m1 m' : ℕ → Bool) (ts : List ℕ)
    → ((u : ℕ) → m1 u ≡ false → (m u ≡ false) × (u ≢ t))
    → ClaimedOnce m1 m' ts
    → ClaimedOnce m m' ts × Fresh t ts
ClaimedOnce-earlier t m m1 m' [] h x = (tt, tt)
ClaimedOnce-earlier t m m1 m' (u ∷ us) h (before, after, fresh, rest) =
    let (was, other) = h u before in
    let (rest', fresh') = ClaimedOnce-earlier t m m1 m' us h rest in
    ((was, after, fresh, rest'), (other, fresh'))

keeps : (q f t u : ℕ) (m : ℕ → ℕ → ℕ → Bool) → m q f u ≡ true → set₃ q f t true m q f u ≡ true
keeps q f t u m x = ground arith

pub later :
    (q f t u : ℕ) (m : ℕ → ℕ → ℕ → Bool)
    → set₃ q f t true m q f u ≡ false
    → (m q f u ≡ false) × (u ≢ t)
later q f t u m x = (ground arith, λ same. absurd (ground arith))

module _ {W : Type 0} (c : Config W) where
  pub reward-unclaimed :
      (feed_id query_id timestamp reward : ℕ) (s : Pallet W)
      → do_get_reward_amount c feed_id query_id timestamp s ≡ ok reward
      → claimed query_id feed_id s timestamp ≡ false
  unfolding do_get_reward_amount
  reward-unclaimed feed_id query_id timestamp reward s e = ground arith

  pub claim_one-cases :
      (reporter feed_id query_id balance last t cumulative cumulative' : ℕ) (s s' : Pallet W)
      → claim_one c reporter feed_id query_id balance last t cumulative s ≡ ok (cumulative', s')
      → (cumulative' ≤ balance)
        × (claimed query_id feed_id s t ≡ false)
        × (s'.autopay.data_feed_reward_claimed
            ≡ set₃ query_id feed_id t true s.autopay.data_feed_reward_claimed)
        × (s'.autopay.data_feeds ≡ s.autopay.data_feeds)
        × (s'.oracle ≡ s.oracle)
        × (s'.staking ≡ s.staking)
        × (s'.world ≡ s.world)
  unfolding claim_one
  claim_one-cases reporter feed_id query_id balance last t cumulative cumulative' s s' e =
      elim (Result-cases (do_get_reward_amount c feed_id query_id t s)) [
        | inr (x, failed) ↦ absurd (ground arith)
        | inl (reward, found) ↦ (
          ground arith,
          reward-unclaimed feed_id query_id t reward s found,
          ground arith,
          ground arith,
          ground arith,
          ground arith,
          ground arith,
        )
      ]

  -- What a claim of several timestamps leaves: a sum within the balance, no claim undone, and the
  -- timestamps claimed once.
  pub claim_all-claims :
      (reporter feed_id query_id balance last : ℕ) (ts : List ℕ) (cumulative cumulative' : ℕ)
      (s s' : Pallet W)
      → cumulative ≤ balance
      → claim_all c reporter feed_id query_id balance last ts cumulative s ≡ ok (cumulative', s')
      → (cumulative' ≤ balance)
        × ((u : ℕ) → claimed query_id feed_id s u ≡ true → claimed query_id feed_id s' u ≡ true)
        × ClaimedOnce (claimed query_id feed_id s) (claimed query_id feed_id s') ts
        × (s'.autopay.data_feeds ≡ s.autopay.data_feeds)
  unfolding claim_all
  claim_all-claims reporter feed_id query_id balance last [] cumulative cumulative' s s' h e =
      let same : s' ≡ s = cc in (ground arith, (λ u x. rw same x), tt, rw same refl)
  claim_all-claims reporter feed_id query_id balance last (t ∷ ts) cumulative cumulative' s s' h e =
      elim (Result-cases (claim_one c reporter feed_id query_id balance last t cumulative s)) [
        | inr (x, failed) ↦ absurd (ground arith)
        | inl ((cumulative1, s1), one) ↦
            let (bound, unclaimed, flags, feeds, oracle, staking, world) =
              claim_one-cases reporter feed_id query_id balance last t cumulative cumulative1 s s1
                one in
            let now : (u : ℕ)
                → claimed query_id feed_id s1 u
                  ≡ set₃ query_id feed_id t true s.autopay.data_feed_reward_claimed query_id feed_id
                      u =
              λ u. ap (λ (m : ℕ → ℕ → ℕ → Bool). m query_id feed_id u) flags in
            let (bound', kept, once, feeds') =
              claim_all-claims reporter feed_id query_id balance last ts cumulative1 cumulative' s1
                s' bound (rw one at e) in
            let here =
              kept t
                (now t ∙ set₃-self query_id feed_id t true s.autopay.data_feed_reward_claimed) in
            let (earlier, fresh) =
              ClaimedOnce-earlier t (claimed query_id feed_id s) (claimed query_id feed_id s1)
                (claimed query_id feed_id s') ts
                (λ u x.
                  later query_id feed_id t u s.autopay.data_feed_reward_claimed (sym (now u) ∙ x))
                once in
            (
              bound',
              (λ u x.
                  kept u (now u ∙ keeps query_id feed_id t u s.autopay.data_feed_reward_claimed x)),
              (unclaimed, here, fresh, earlier),
              feeds' ∙ feeds,
            )
      ]

  -- The payment of a reward leaves the feeds and the claims alone.
  add_rewards-autopay :
      (source amount : ℕ) (s s' : Pallet W)
      → do_add_staking_rewards c source amount s ≡ ok s'
      → s'.autopay ≡ s.autopay
  unfolding do_add_staking_rewards
  add_rewards-autopay source amount s s' e = ground arith

  pub pay_reward-autopay :
      (reporter cumulative : ℕ) (s s' : Pallet W)
      → pay_reward c reporter cumulative s ≡ ok s'
      → s'.autopay ≡ s.autopay
  unfolding pay_reward
  pay_reward-autopay reporter cumulative s s' e = grind (arith, add_rewards-autopay)

  -- A claim that is accepted names timestamps that differ from each other, were all unclaimed
  -- before and are all claimed afterwards.
  pub claim_tip-once :
      (reporter feed_id query_id : ℕ) (ts : List ℕ) (s s' : Pallet W)
      → claim_tip c (signed reporter) feed_id query_id ts s ≡ ok s'
      → ClaimedOnce (claimed query_id feed_id s) (claimed query_id feed_id s') ts
  claim_tip-once reporter feed_id query_id ts s s' e =
      let x = claim_tip-Claims c reporter feed_id query_id ts s s' e in
      let (bound, kept, once, feeds) =
        claim_all-claims reporter feed_id query_id x.feed.balance (last_of 0 ts) ts 0 x.paid s
          x.rewarded (omega arith) x.claims in
      let same = x.same_autopay ∙ pay_reward-autopay reporter x.paid _ x.payed x.pays in
      rw same once
