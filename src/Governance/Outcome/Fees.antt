-- ===== src/Governance/Outcome/Fees.antt =====
-- Where the dispute fees go: `execute_vote` of src/impls.rs, over an asset that keeps accounts.
use tellor_pallet.Base.{
  ℕ, zero, suc, ◌+◌, ◌≡◌, ◌≢◌, refl, Bool, Option, none, some, arith, ◌==◌, if◌then◌else◌, inl, inr,
  eq_cases, Option-cases,
}
use tellor_pallet.Types.{ok, Result-cases, Vote, VoteResult, passed, failed, invalid, Dispute}
use tellor_pallet.Config.{Config, Preservation, protect}
use tellor_pallet.State.{Pallet}
use tellor_pallet.Governance.Outcome.{execute_vote, pay_fees, fee_receiver}

-- A transfer takes the amount from the one account and adds it to the other, and to no third.
pub record IsLedger {W : Type 0} (c : Config W) : Type 0 where
  pub taken :
      {w w' : W} {source dest amount : ℕ} {p : Preservation}
      → c.transfer w source dest amount p ≡ ok w'
      → source ≢ dest
      → c.balance w' source + amount ≡ c.balance w source
  pub given :
      {w w' : W} {source dest amount : ℕ} {p : Preservation}
      → c.transfer w source dest amount p ≡ ok w'
      → source ≢ dest
      → c.balance w' dest ≡ c.balance w dest + amount
  pub others :
      {w w' : W} {source dest amount account : ℕ} {p : Preservation}
      → c.transfer w source dest amount p ≡ ok w'
      → account ≢ source
      → account ≢ dest
      → c.balance w' account ≡ c.balance w account

-- The fees of the rounds up to one.
abbrev pub total_fees : (ℕ → Option Vote) → ℕ → ℕ
total_fees votes zero = 0
total_fees votes (suc round) = elim (votes (suc round)) [
  | none ↦ total_fees votes round
  | some vote ↦ vote.fee + total_fees votes round
]

-- Whether an account is to have the fee of a round: the disputed reporter if the vote failed, else
-- the initiator of the round.
abbrev pub earns : VoteResult → ℕ → ℕ → ℕ → Bool
earns failed initiator reporter account = reporter == account
earns passed initiator reporter account = initiator == account
earns invalid initiator reporter account = initiator == account

earns-fee_receiver :
    (result : VoteResult) (initiator reporter account : ℕ)
    → earns result initiator reporter account ≡ (fee_receiver result initiator reporter == account)
earns-fee_receiver failed initiator reporter account = refl
earns-fee_receiver passed initiator reporter account = refl
earns-fee_receiver invalid initiator reporter account = refl

-- Those of them that an account is to receive: the initiator of a round gets its fee back, unless
-- the vote failed, and then the disputed reporter gets it.
abbrev pub fees_due : VoteResult → ℕ → ℕ → (ℕ → Option Vote) → ℕ → ℕ
fees_due result reporter account votes zero = 0
fees_due result reporter account votes (suc round) = elim (votes (suc round)) [
  | none ↦ fees_due result reporter account votes round
  | some vote ↦
      (if earns result vote.initiator reporter account then vote.fee else 0)
      + fees_due result reporter account votes round
]

module _ {W : Type 0} (c : Config W) (ledger : IsLedger c) (vote : Vote) (votes : ℕ → Option Vote)
    (final_round : ℕ) (listed : votes final_round ≡ some vote) (result : VoteResult) (reporter : ℕ)
    (apart : (round : ℕ) (v : Vote)
      → votes round ≡ some v
      → c.dispute_fees ≢ fee_receiver result v.initiator reporter) where
  -- One round: the vote that is paid is the one that is stored.
  pay_round :
      (round : ℕ) (world world' : W)
      → pay_fees c (suc round) final_round vote votes result reporter world ≡ ok world'
      → (paid : Vote) × (between : W) × (votes (suc round) ≡ some paid)
        × (c.transfer world c.dispute_fees
              (fee_receiver result paid.initiator reporter)
              paid.fee
              protect
            ≡ ok between)
        × (pay_fees c round final_round vote votes result reporter between ≡ ok world')
  unfolding pay_fees
  pay_round round world world' e = elim (Option-cases (votes (suc round))) [
    | inl missing ↦ elim (eq_cases (suc round) final_round) [
      | inl last ↦ absurd (ground arith)
      | inr earlier ↦ absurd (ground arith)
    ]
    | inr (paid, found) ↦
        elim (Result-cases (
          c.transfer world c.dispute_fees (fee_receiver result paid.initiator reporter) paid.fee
            protect)) [
              | inr (x, refused) ↦ elim (eq_cases (suc round) final_round) [
                | inl last ↦ let same : paid ≡ vote = cc in absurd (ground arith)
                | inr earlier ↦ absurd (ground arith)
              ]
              | inl (between, moved) ↦ (
                paid,
                between,
                found,
                moved,
                elim (eq_cases (suc round) final_round) [
                  | inl last ↦ let same : paid ≡ vote = cc in ground arith
                  | inr earlier ↦ ground arith
                ],
              )
            ]
  ]

  pay_fees-balances :
      (round : ℕ) (world world' : W)
      → pay_fees c round final_round vote votes result reporter world ≡ ok world'
      → (c.balance world' c.dispute_fees + total_fees votes round ≡ c.balance world c.dispute_fees)
        × ((account : ℕ)
            → account ≢ c.dispute_fees
            → c.balance world' account
              ≡ c.balance world account + fees_due result reporter account votes round)
  unfolding pay_fees
  pay_fees-balances zero world world' e =
      let same : world' ≡ world = cc in rw same (omega arith, λ account other. omega arith)
  pay_fees-balances (suc round) world world' e =
      let (paid, between, here, moved, rest) = pay_round round world world' e in
      let (fund, accounts) = pay_fees-balances round between world' rest in
      let away = apart (suc round) paid here in
      (
        rw (here, total_fees) (omega (arith, fund, ledger.taken moved away)),
        λ account other. elim (eq_cases (fee_receiver result paid.initiator reporter) account) [
          | inl receiver ↦
              rw (here, fees_due)
                (ground (
                  arith,
                  accounts account other,
                  ledger.given moved away,
                  earns-fee_receiver result paid.initiator reporter account,
                ))
          | inr third ↦
              rw (here, fees_due)
                (ground (
                  arith,
                  accounts account other,
                  ledger.others moved other,
                  earns-fee_receiver result paid.initiator reporter account,
                ))
        ],
      )

receiver-apart :
    (account reporter initiator : ℕ) (result : VoteResult)
    → account ≢ reporter
    → account ≢ initiator
    → account ≢ fee_receiver result initiator reporter
receiver-apart account reporter initiator result h k e = ground arith

-- Over an asset whose transfers take the amount from the one account and add it to the other, and
-- to no third, where neither the disputed reporter nor an initiator of a round is the account of
-- the dispute fees: an execution that is accepted takes the fees of all rounds off that account,
-- and gives every other account the fees that it is to have by the result of the last vote, those
-- of its own rounds, or all of them for the disputed reporter if the vote failed, and no more.
pub execute_vote-fees :
    {W : Type 0} (c : Config W) (dispute_id n : ℕ) (dispute : Dispute) (s s' : Pallet W)
    → IsLedger c
    → s.governance.dispute_info dispute_id ≡ some dispute
    → c.dispute_fees ≢ dispute.disputed_reporter
    → ((round : ℕ) (v : Vote)
        → s.governance.vote_info dispute_id round ≡ some v
        → c.dispute_fees ≢ v.initiator)
    → execute_vote c dispute_id s ≡ ok (s', n)
    → (result : VoteResult) × (vote : Vote) × (s.governance.vote_info dispute_id
          (s.governance.vote_rounds dispute_id)
        ≡ some vote)
      × (vote.result ≡ some result)
      × (c.balance s'.world c.dispute_fees
            + total_fees (s.governance.vote_info dispute_id) (s.governance.vote_rounds dispute_id)
          ≡ c.balance s.world c.dispute_fees)
      × ((account : ℕ)
          → account ≢ c.dispute_fees
          → c.balance s'.world account
            ≡ c.balance s.world account
              + fees_due result dispute.disputed_reporter account
                  (s.governance.vote_info dispute_id)
                  (s.governance.vote_rounds dispute_id))
unfolding execute_vote
execute_vote-fees c dispute_id n dispute s s' ledger known reporter_apart apart e =
    let final = s.governance.vote_rounds dispute_id in
    let votes = s.governance.vote_info dispute_id in
    elim (Option-cases (votes final)) [
      | inl missing ↦ absurd (ground arith)
      | inr (vote, listed) ↦ elim (Option-cases vote.result) [
        | inl missing ↦ absurd (ground arith)
        | inr (result, decided) ↦
            elim (Result-cases
              (pay_fees c final final vote votes result dispute.disputed_reporter s.world)) [
                | inr (x, refused) ↦ absurd (ground arith)
                | inl (world, paid) ↦
                    let same : s'.world ≡ world = ground arith in
                    let (fund, accounts) =
                      pay_fees-balances c ledger vote votes final listed result
                        dispute.disputed_reporter
                        (λ round v e'.
                          receiver-apart c.dispute_fees dispute.disputed_reporter v.initiator result
                            reporter_apart (apart round v e'))
                        final s.world world paid in
                    (
                      result,
                      vote,
                      listed,
                      decided,
                      rw same fund,
                      λ account other. rw same (accounts account other),
                    )
              ]
      ]
    ]
