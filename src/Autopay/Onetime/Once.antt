-- ===== src/Autopay/Onetime/Once.antt =====
-- A one-time tip is claimed once: `get_onetime_tip_amount` of src/impls.rs and
-- `claim_onetime_tip` of src/lib.rs.
use tellor_pallet.Base.{
  ℕ, zero, suc, ◌+◌, ◌/◌, ◌<◌, ◌≡◌, ◌≢◌, refl, ap, ◌∙◌, Option, none, some, List, [], ◌∷◌, arith,
  set₂, set₂-self, inl, inr, eq_cases,
}
use tellor_pallet.Base.Machine.{saturating_add}
use tellor_pallet.Types.{ok, Result-cases, Tip, signed}
use tellor_pallet.Config.{Config}
use tellor_pallet.State.{AutoPay, Pallet}
use tellor_pallet.Autopay.Tips.{put_tip}
use tellor_pallet.Autopay.ClaimTip.{pay_reward}
use tellor_pallet.Autopay.ClaimTip.Once.{Fresh, pay_reward-autopay}
use tellor_pallet.Autopay.Onetime.{
  search_tips, tip_fuel, get_onetime_tip_amount, claim_onetime_all, claim_onetime_tip,
}

-- The time at which the search reads a tip.
abbrev pub time_of : Option Tip → ℕ
time_of none = 0
time_of (some t) = t.timestamp

-- The search depends on the times of the tips alone.
search_tips-cong :
    (fuel : ℕ) (tips tips' : ℕ → Option Tip) (timestamp min max : ℕ)
    → ((i : ℕ) → time_of (tips' i) ≡ time_of (tips i))
    → search_tips fuel tips' timestamp min max ≡ search_tips fuel tips timestamp min max
unfolding search_tips
search_tips-cong zero tips tips' timestamp min max h = refl
search_tips-cong (suc fuel) tips tips' timestamp min max h =
    let left = search_tips-cong fuel tips tips' timestamp min ((max + min) / 2) h in
    let right = search_tips-cong fuel tips tips' timestamp ((max + min) / 2) max h in
    let here = h ((max + min) / 2) in ground arith

-- The tip of a report at a time has been taken: its amount is zero.
abbrev pub Taken : (ℕ → Option Tip) → ℕ → ℕ → Type 0
Taken tips count timestamp =
    (min : ℕ) × (m : Tip) × (search_tips tip_fuel tips timestamp 0 count ≡ some (ok min))
    × (tips min ≡ some m)
    × (m.amount ≡ 0)

-- The tips at a later time: the same times, and what was zero stays so.
record Later (tips tips' : ℕ → Option Tip) : Type 0 where
  times : (i : ℕ) → time_of (tips' i) ≡ time_of (tips i)
  zeroes :
      (i : ℕ) (m : Tip)
      → tips i ≡ some m
      → m.amount ≡ 0
      → (m' : Tip) × (tips' i ≡ some m') × (m'.amount ≡ 0)

Taken-Later :
    (tips tips' : ℕ → Option Tip) (count t : ℕ)
    → Later tips tips'
    → Taken tips count t
    → Taken tips' count t
Taken-Later tips tips' count t l (min, m, found, listed, empty) =
    let (m', listed', empty') = l.zeroes min m listed empty in
    (min, m', search_tips-cong tip_fuel tips tips' t 0 count l.times ∙ found, listed', empty')

-- Taking a tip leaves later tips.
put-Later :
    (query_id min : ℕ) (m : Tip) (tips : ℕ → ℕ → Option Tip)
    → tips query_id min ≡ some m
    → Later (tips query_id) (set₂ query_id min (some (record m { amount = 0 })) tips query_id)
put-Later query_id min m tips e = record {
  times = λ i. elim (eq_cases i min) [ inl same ↦ ground arith | inr other ↦ ground arith ];
  zeroes = λ i n listed empty. elim (eq_cases i min) [
    | inl same ↦ (record m { amount = 0 }, ground arith, refl)
    | inr other ↦ (n, ground arith, empty)
  ];
}

-- In a state, the tip of a report has been taken.
abbrev pub TakenIn : {W : Type 0} → ℕ → Pallet W → ℕ → Type 0
TakenIn query_id s t = Taken (s.autopay.tips query_id) (s.autopay.tip_count query_id) t

-- The timestamps differ from each other, and their tips have been taken.
abbrev pub AllTaken : {W : Type 0} → ℕ → Pallet W → List ℕ → Type 0
AllTaken query_id s [] = Unit {0}
AllTaken query_id s (t ∷ ts) = TakenIn query_id s t × Fresh t ts × AllTaken query_id s ts

module _ {W : Type 0} (c : Config W) where
  -- A claim that is accepted takes the tip that the search finds.
  get_onetime-takes :
      (query_id t claimer amount : ℕ) (s s' : Pallet W)
      → get_onetime_tip_amount c query_id t claimer s ≡ ok (amount, s')
      → (min : ℕ) × (m : Tip) × (search_tips tip_fuel
            (s.autopay.tips query_id)
            t
            0
            (s.autopay.tip_count query_id)
          ≡ some (ok min))
        × (s.autopay.tips query_id min ≡ some m)
        × (0 < m.amount)
        × (s' ≡ record s { autopay = put_tip query_id min (record m { amount = 0 }) s.autopay })
  unfolding get_onetime_tip_amount
  get_onetime-takes query_id t claimer amount s s' e = ground arith

  get_onetime-keeps :
      (query_id t claimer amount : ℕ) (s s' : Pallet W)
      → get_onetime_tip_amount c query_id t claimer s ≡ ok (amount, s')
      → TakenIn query_id s' t × ((u : ℕ) → TakenIn query_id s u → TakenIn query_id s' u)
  get_onetime-keeps query_id t claimer amount s s' e =
      let (min, m, found, listed, some_, same) =
        get_onetime-takes query_id t claimer amount s s' e in
      let tips = s.autopay.tips in
      let l = put-Later query_id min m tips listed in
      rw same (
        (
          min,
          record m { amount = 0 },
          search_tips-cong tip_fuel (tips query_id) _ t 0 (s.autopay.tip_count query_id) l.times
              ∙ found,
          set₂-self query_id min (some (record m { amount = 0 })) tips,
          refl,
        ),
        λ u x. Taken-Later (tips query_id) _ (s.autopay.tip_count query_id) u l x,
      )

  -- A claim of a tip that has been taken is refused.
  get_onetime-refused :
      (query_id t claimer : ℕ) (s : Pallet W) (r : ℕ × Pallet W)
      → TakenIn query_id s t
      → get_onetime_tip_amount c query_id t claimer s ≢ ok r
  unfolding get_onetime_tip_amount
  get_onetime-refused query_id t claimer s r (min, m, found, listed, empty) e = ground arith

  claim_onetime_all-AllTaken :
      (reporter query_id : ℕ) (ts : List ℕ) (cumulative cumulative' : ℕ) (s s' : Pallet W)
      → claim_onetime_all c reporter query_id ts cumulative s ≡ ok (cumulative', s')
      → AllTaken query_id s' ts
        × ((u : ℕ) → TakenIn query_id s u → TakenIn query_id s' u × Fresh u ts)
  unfolding claim_onetime_all
  claim_onetime_all-AllTaken reporter query_id [] cumulative cumulative' s s' e =
      let same : s' ≡ s = cc in (tt, λ u x. (rw same x, tt))
  claim_onetime_all-AllTaken reporter query_id (t ∷ ts) cumulative cumulative' s s' e =
      elim (Result-cases (get_onetime_tip_amount c query_id t reporter s)) [
        | inr (x, failed) ↦ absurd (ground arith)
        | inl ((amount, s1), one) ↦
            let (here, kept) = get_onetime-keeps query_id t reporter amount s s1 one in
            let (rest, later) =
              claim_onetime_all-AllTaken reporter query_id ts
                (saturating_add c.balance_max cumulative amount) cumulative' s1 s' (rw one at e) in
            let (here', fresh) = later t here in
            (
              (here', fresh, rest),
              λ u x.
                  let (after_, fresh_u) = later u (kept u x) in
                  (
                    after_,
                    (
                      λ same.
                          get_onetime-refused query_id t reporter s (amount, s1) (rw same x) one,
                      fresh_u,
                    ),
                  ),
            )
      ]

  -- The timestamps differ from each other, and no claim of them is accepted, whoever makes it.
  abbrev pub AllRefused : ℕ → Pallet W → List ℕ → Type 0
  AllRefused query_id z [] = Unit {0}
  AllRefused query_id z (t ∷ ts) =
      ((claimer : ℕ) (r : ℕ × Pallet W) → get_onetime_tip_amount c query_id t claimer z ≢ ok r)
      × Fresh t ts
      × AllRefused query_id z ts

  AllTaken-AllRefused :
      (query_id : ℕ) (z : Pallet W) (ts : List ℕ)
      → AllTaken query_id z ts
      → AllRefused query_id z ts
  AllTaken-AllRefused query_id z [] x = tt
  AllTaken-AllRefused query_id z (t ∷ ts) (here, fresh, rest) = (
    λ claimer r. get_onetime-refused query_id t claimer z r here,
    fresh,
    AllTaken-AllRefused query_id z ts rest,
  )

  AllTaken-autopay :
      (query_id : ℕ) (s z : Pallet W) (ts : List ℕ)
      → z.autopay.tips ≡ s.autopay.tips
      → z.autopay.tip_count ≡ s.autopay.tip_count
      → AllTaken query_id s ts
      → AllTaken query_id z ts
  AllTaken-autopay query_id s z [] tips counts x = tt
  AllTaken-autopay query_id s z (t ∷ ts) tips counts (here, fresh, rest) =
      (rw (tips, counts) here, fresh, AllTaken-autopay query_id s z ts tips counts rest)

  -- A claim of one-time tips that is accepted names times that differ from each other, and in the
  -- state that it leaves, or any other that holds the same tips, no claim of a report at one of
  -- these times is accepted, whoever makes it.
  pub claim_onetime_tip-once :
      (reporter query_id : ℕ) (ts : List ℕ) (s s' z : Pallet W)
      → claim_onetime_tip c (signed reporter) query_id ts s ≡ ok s'
      → z.autopay ≡ s'.autopay
      → AllRefused query_id z ts
  unfolding claim_onetime_tip
  claim_onetime_tip-once reporter query_id ts s s' z e held =
      elim (Result-cases (claim_onetime_all c reporter query_id ts 0 s)) [
        | inr (x, failed) ↦ absurd (ground arith)
        | inl ((paid, s1), all) ↦ elim (Result-cases (pay_reward c reporter paid s1)) [
          | inr (x, failed) ↦ absurd (ground arith)
          | inl (s2, pay) ↦
              let tips : s'.autopay.tips ≡ s2.autopay.tips = ground arith in
              let counts : s'.autopay.tip_count ≡ s2.autopay.tip_count = ground arith in
              let same = pay_reward-autopay c reporter paid s1 s2 pay in
              AllTaken-AllRefused query_id z ts (
                AllTaken-autopay query_id s1 z ts
                  (ap (λ (a : AutoPay). a.tips) held ∙ tips ∙ ap (λ (a : AutoPay). a.tips) same)
                  (ap (λ (a : AutoPay). a.tip_count) held
                    ∙ counts
                    ∙ ap (λ (a : AutoPay). a.tip_count) same)
                  (claim_onetime_all-AllTaken reporter query_id ts 0 paid s s1 all).0)
        ]
      ]
