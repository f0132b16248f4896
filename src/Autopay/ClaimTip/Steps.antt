-- ===== src/Autopay/ClaimTip/Steps.antt =====
-- The steps of a claim that is accepted: `claim_tip` of src/lib.rs.
use tellor_pallet.Base.{ℕ, ◌-◌, ◌≡◌, List, some, arith, set₂, inl, inr, Option-cases}
use tellor_pallet.Types.{ok, Result-cases, Feed, signed}
use tellor_pallet.Config.{Config}
use tellor_pallet.State.{Pallet}
use tellor_pallet.Autopay.ClaimTip.{claim_all, claim_tip, pay_reward, last_of}

module _ {W : Type 0} (c : Config W) where
  -- A claim that is accepted, in its steps: the rewards are claimed, the balance of the feed is
  -- written, and the sum is paid.
  pub record Claims (reporter feed_id query_id : ℕ) (ts : List ℕ) (s s' : Pallet W) : Type 0 where
    pub feed : Feed
    pub paid : ℕ
    pub rewarded : Pallet W
    pub payed : Pallet W
    pub found : s.autopay.data_feeds query_id feed_id ≡ some feed
    pub claims :
        claim_all c reporter feed_id query_id feed.balance (last_of 0 ts) ts 0 s
        ≡ ok (paid, rewarded)
    pub pays :
        pay_reward c reporter paid (record rewarded {
          autopay = record rewarded.autopay {
            data_feeds =
                set₂ query_id feed_id
                  (some (record feed { balance = feed.balance - paid }))
                  rewarded.autopay.data_feeds;
          };
        })
        ≡ ok payed
    pub same_autopay : s'.autopay ≡ payed.autopay
    pub same_world : s'.world ≡ payed.world

  pub claim_tip-Claims :
      (reporter feed_id query_id : ℕ) (ts : List ℕ) (s s' : Pallet W)
      → claim_tip c (signed reporter) feed_id query_id ts s ≡ ok s'
      → Claims reporter feed_id query_id ts s s'
  unfolding claim_tip
  claim_tip-Claims reporter feed_id query_id ts s s' e =
      elim (Option-cases (s.autopay.data_feeds query_id feed_id)) [
        | inl missing ↦ absurd (ground arith)
        | inr (feed, found) ↦
            elim (Result-cases
              (claim_all c reporter feed_id query_id feed.balance (last_of 0 ts) ts 0 s)) [
                | inr (x, failed) ↦ absurd (ground arith)
                | inl ((paid, s1), all) ↦
                    let feed' : Feed = record feed { balance = feed.balance - paid } in
                    let s2 : Pallet W = record s1 {
                      autopay = record s1.autopay {
                        data_feeds = set₂ query_id feed_id (some feed') s1.autopay.data_feeds;
                      };
                    } in
                    elim (Result-cases (pay_reward c reporter paid s2)) [
                      | inr (x, failed) ↦ absurd (ground arith)
                      | inl (s3, pay) ↦ record {
                        feed = feed;
                        paid = paid;
                        rewarded = s1;
                        payed = s3;
                        found = found;
                        claims = all;
                        pays = pay;
                        same_autopay = ground arith;
                        same_world = ground arith;
                      }
                    ]
              ]
      ]
