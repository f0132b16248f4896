-- ===== src/Oracle/After/Scan.antt =====
-- The reference scan for the first report after a time, and the end of the search: the second loop
-- of `get_index_for_data_after` in src/impls.rs.
use tellor_pallet.Base.{
  ℕ, zero, suc, ◌+◌, ◌-◌, ◌≤◌, ◌<◌, ◌≡◌, refl, ◌∙◌, true, not, ◌&&◌, Option, none, some,
  if◌then◌else◌, ltb, ◌==◌, arith, inl, inr, Bool-cases, eq_cases,
}
use tellor_pallet.Base.Machine.{saturating_inc, u32_max}
use tellor_pallet.Oracle.Series.{Series, IsSeries, is_in_dispute}
use tellor_pallet.Oracle.After.{settle_after, skip_disputed, time_or_zero}

-- The reference: of the `n` indices from `i` on, the first whose report is later than the time and
-- not disputed.
unfoldable pub first_index_after : Series → ℕ → ℕ → ℕ → Option ℕ
first_index_after s timestamp zero i = none
first_index_after s timestamp (suc n) i = elim (s.timestamps i) [
  | none ↦ first_index_after s timestamp n (i + 1)
  | some t ↦
      if ltb timestamp t && not (is_in_dispute s t)
      then some i
      else first_index_after s timestamp n (i + 1)
]

module _ (s : Series) (v : IsSeries s) (timestamp : ℕ) where
  after_step :
      (n i t : ℕ)
      → s.timestamps i ≡ some t
      → t ≤ timestamp
      → first_index_after s timestamp (suc n) i ≡ first_index_after s timestamp n (i + 1)
  unfolding first_index_after
  after_step n i t e old = ground arith

  after_late :
      (n m t : ℕ)
      → s.timestamps m ≡ some t
      → timestamp < t
      → first_index_after s timestamp (suc n) m
        ≡ (if is_in_dispute s t then first_index_after s timestamp n (m + 1) else some m)
  unfolding first_index_after
  after_late n m t e late = ground arith

  -- Reports that are not later do not change the scan.
  pub after_older :
      (n i n' k : ℕ)
      → i ≤ k
      → n + i ≡ s.count
      → n' + k ≡ s.count
      → ((j t : ℕ) → j < k → s.timestamps j ≡ some t → t ≤ timestamp)
      → first_index_after s timestamp n i ≡ first_index_after s timestamp n' k
  after_older zero i n' k le en en' older =
      let e : n' ≡ 0 = omega arith in let e2 : k ≡ i = omega arith in rw (e, e2) refl
  after_older (suc n) i n' k le en en' older = elim (eq_cases i k) [
    | inl same ↦ let e : n' ≡ suc n = omega arith in rw (e, same) refl
    | inr other ↦
        let (t, r, listed, reported, index) = v.listed i (omega arith) in
        let old : t ≤ timestamp = older i t (omega arith) listed in
        after_step n i t listed old
        ∙ after_older n (i + 1) n' k (omega arith) (omega arith) en' older
  ]

  first_zero : (i : ℕ) → first_index_after s timestamp 0 i ≡ none
  unfolding first_index_after
  first_zero i = refl

  -- What is left of the indices after the second loop.
  abbrev finish : ℕ → ℕ × ℕ → Option ℕ
  finish end (middle, time) = if (middle == end) && is_in_dispute s time then none else some middle

  skip_disputed-finish :
      (rounds m t end : ℕ)
      → rounds + m ≡ end
      → end < s.count
      → s.count ≤ u32_max
      → s.timestamps m ≡ some t
      → timestamp < t
      → finish end (skip_disputed rounds s m t) ≡ first_index_after s timestamp (suc rounds) m
  unfolding skip_disputed
  skip_disputed-finish zero m t end e inside fits listed late =
      let same : (m == end) ≡ true = ground arith in
      let none_left = after_late 0 m t listed late in ground (arith, first_zero (m + 1))
  skip_disputed-finish (suc rounds) m t end e inside fits listed late =
      let (u, r, next, reported, index) = v.listed (m + 1) (omega arith) in
      let up : t < u = v.increasing m (m + 1) t u listed next (omega arith) in
      let ih =
        skip_disputed-finish rounds (m + 1) u end (omega arith) inside fits next (omega arith) in
      let inc : saturating_inc u32_max m ≡ m + 1 = ground arith in
      let time : time_or_zero s (m + 1) ≡ u = ground arith in
      let here = after_late (suc rounds) m t listed late in
      elim (Bool-cases (is_in_dispute s t)) [
        | inl disputed ↦ rw (here, disputed, inc, time) ih
        | inr stands ↦ rw (here, stands) (ground arith)
      ]

  -- From the first report that is later, the search takes the first that is not disputed.
  pub settle_after-scan :
      (m t n : ℕ)
      → n + m ≡ s.count
      → m < s.count
      → s.count ≤ u32_max
      → s.timestamps m ≡ some t
      → timestamp < t
      → settle_after s (s.count - 1) (m, t) ≡ first_index_after s timestamp n m
  unfolding settle_after
  settle_after-scan m t n e inside fits listed late =
      let rounds = s.count - 1 - m in
      let n_eq : n ≡ suc rounds = omega arith in
      let tail =
        skip_disputed-finish rounds m t (s.count - 1) (omega arith) (omega arith) fits listed
          late in
      let here = after_late rounds m t listed late in
      elim (Bool-cases (is_in_dispute s t)) [
        | inl disputed ↦ rw (n_eq, disputed) tail
        | inr stands ↦ rw (n_eq, here, stands) refl
      ]
