-- ===== src/Autopay/Onetime/Search.antt =====
-- The binary search over the tips: the first loop of `get_onetime_tip_amount` in src/impls.rs.
use tellor_pallet.Base.{
  ℕ, zero, suc, ◌+◌, ◌-◌, ◌/◌, ◌≤◌, ◌<◌, ◌≡◌, refl, true, false, Option, none, some, arith, ltb,
  Bool-cases, ◌∙◌, inl, inr, ◌⊎◌,
}
use tellor_pallet.Base.Machine.{u32_max}
use tellor_pallet.Types.{ok, Tip}
use tellor_pallet.Autopay.Onetime.{search_tips, tip_fuel}

-- The time of a tip, zero for one that is missing.
abbrev pub tip_time : (ℕ → Option Tip) → ℕ → ℕ
tip_time tips i = elim (tips i) [ none ↦ 0 | some t ↦ t.timestamp ]

-- How far apart the bounds may lie for a number of rounds.
abbrev reach : ℕ → ℕ
reach zero = 1
reach (suc k) = reach k + reach k

-- What the search leaves: the tip at the index is no later than the time, and the next one is.
abbrev pub Found : (ℕ → Option Tip) → ℕ → ℕ → ℕ → ℕ → Type 0
Found tips timestamp min max r =
    (min ≤ r)
    × ((r ≡ min) ⊎ ((r < max) × (tip_time tips r ≤ timestamp)))
    × ((max ≤ r + 1) ⊎ (timestamp < tip_time tips (r + 1)))

-- A round between bounds that are further apart than one.
search-lower :
    (fuel : ℕ) (tips : ℕ → Option Tip) (timestamp min max : ℕ)
    → min + 1 < max
    → max + max ≤ u32_max
    → ltb timestamp (tip_time tips ((max + min) / 2)) ≡ true
    → search_tips (suc fuel) tips timestamp min max
      ≡ search_tips fuel tips timestamp min ((max + min) / 2)
unfolding search_tips
search-lower fuel tips timestamp min max far fits later = ground arith

search-upper :
    (fuel : ℕ) (tips : ℕ → Option Tip) (timestamp min max : ℕ)
    → min + 1 < max
    → max + max ≤ u32_max
    → ltb timestamp (tip_time tips ((max + min) / 2)) ≡ false
    → search_tips (suc fuel) tips timestamp min max
      ≡ search_tips fuel tips timestamp ((max + min) / 2) max
unfolding search_tips
search-upper fuel tips timestamp min max far fits earlier = ground arith

search-close :
    (fuel : ℕ) (tips : ℕ → Option Tip) (timestamp min max : ℕ)
    → min ≤ max
    → max ≤ min + 1
    → search_tips (suc fuel) tips timestamp min max ≡ some (ok min)
unfolding search_tips
search-close fuel tips timestamp min max le close = ground arith

next_later :
    (timestamp min mid r : ℕ) (tips : ℕ → Option Tip)
    → ltb timestamp (tip_time tips mid) ≡ true
    → mid ≤ r + 1
    → min < mid
    → (r ≡ min) ⊎ ((r < mid) × (tip_time tips r ≤ timestamp))
    → timestamp < tip_time tips (r + 1)
next_later timestamp min mid r tips later end lt here =
    let same : r + 1 ≡ mid = elim here [ inl e ↦ omega arith | inr (below, x) ↦ omega arith ] in
    rw same (ground arith)

search-Found :
    (k : ℕ) (tips : ℕ → Option Tip) (timestamp min max : ℕ)
    → min ≤ max
    → max - min ≤ reach k
    → max + max ≤ u32_max
    → (r : ℕ) × (search_tips (suc k) tips timestamp min max ≡ some (ok r))
      × Found tips timestamp min max r
search-Found zero tips timestamp min max le near fits = (
  min,
  search-close zero tips timestamp min max le (omega arith),
  (omega arith, inl refl, inl (omega arith)),
)
search-Found (suc k) tips timestamp min max le near fits = elim (Bool-cases (ltb (min + 1) max)) [
  | inr close ↦ (
    min,
    search-close (suc k) tips timestamp min max le (ground arith),
    (omega arith, inl refl, inl (ground arith)),
  )
  | inl far ↦
      let apart : min + 1 < max = ground arith in
      let mid = (max + min) / 2 in
      elim (Bool-cases (ltb timestamp (tip_time tips mid))) [
        | inl later ↦
            let (r, found, (low, here, next)) =
              search-Found k tips timestamp min mid (omega arith) (omega arith) (omega arith) in
            (
              r,
              search-lower (suc k) tips timestamp min max apart fits later ∙ found,
              (
                low,
                elim here [ inl e ↦ inl e | inr (lt, x) ↦ inr (omega arith, x) ],
                elim next [
                  | inr x ↦ inr x
                  | inl end ↦ inr (next_later timestamp min mid r tips later end (omega arith) here)
                ],
              ),
            )
        | inr earlier ↦
            let (r, found, (low, here, next)) =
              search-Found k tips timestamp mid max (omega arith) (omega arith) fits in
            (
              r,
              search-upper (suc k) tips timestamp min max apart fits earlier ∙ found,
              (
                omega arith,
                elim here [
                  | inl e ↦ inr (omega arith, rw e (ground arith))
                  | inr (lt, x) ↦ inr (lt, x)
                ],
                next,
              ),
            )
      ]
]

-- Over a number of tips whose double fits 32 bits, the search ends within its fuel, on an index:
-- its tip is no later than the time unless the index is the first, and the next tip, if there is
-- one, is later.
pub search_tips-Found :
    (tips : ℕ → Option Tip) (timestamp tip_count : ℕ)
    → tip_count + tip_count ≤ u32_max
    → (r : ℕ) × (search_tips tip_fuel tips timestamp 0 tip_count ≡ some (ok r))
      × Found tips timestamp 0 tip_count r
search_tips-Found tips timestamp tip_count fits =
    search-Found 33 tips timestamp 0 tip_count (omega arith) (omega arith) fits
