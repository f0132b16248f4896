-- ===== src/Oracle/Before/Scan.antt =====
-- The reference scan of a series, and the candidate of a search: the end of the loop of
-- `get_index_for_data_before_with_start` in src/impls.rs.
use tellor_pallet.Base.{
  ℕ, zero, suc, ◌≤◌, ◌<◌, ◌≡◌, refl, Option, some, ◌and_then◌, if◌then◌else◌, leb, arith, inl, inr,
  Bool-cases, Option-cases, ge→ltb,
}
use tellor_pallet.Types.{Report}
use tellor_pallet.Oracle.Series.{Series, IsSeries, last_index_before, last_undisputed}
use tellor_pallet.Oracle.Before.{settle}

module _ (s : Series) (v : IsSeries s) (timestamp : ℕ) where
  unfoldable pub index_of : ℕ → Option ℕ
  index_of t = s.reports t and_then λ r. some r.index

  -- Where all reports are older, the scan finds the last one that is not disputed.
  scan_older :
      (n : ℕ)
      → n ≤ s.count
      → ((i t : ℕ) → i < n → s.timestamps i ≡ some t → t < timestamp)
      → (last_undisputed s n and_then index_of) ≡ last_index_before s timestamp n
  unfolding last_undisputed last_index_before index_of
  scan_older zero le older = refl
  scan_older (suc i) le older =
      let (t, r, listed, reported, index) = v.listed i le in
      let t_older : t < timestamp = older i t (omega arith) listed in
      let rest = scan_older i (omega arith) (λ j u lt. older j u (omega arith)) in ground arith

  -- Reports that are not older do not change the scan.
  pub scan_newer :
      (n k : ℕ)
      → k ≤ n
      → ((i t : ℕ) → k ≤ i → s.timestamps i ≡ some t → timestamp ≤ t)
      → last_index_before s timestamp n ≡ last_index_before s timestamp k
  unfolding last_index_before
  scan_newer zero zero le newer = refl
  scan_newer zero (suc k) le newer = absurd (omega arith)
  scan_newer (suc n) k le newer = elim (Bool-cases (leb k n)) [
    | inl below ↦ elim (Option-cases (s.timestamps n)) [
      | inl e ↦ rw (e, last_index_before) (scan_newer n k (ground arith) newer)
      | inr (t, e) ↦
          let late : timestamp ≤ t = newer n t (ground arith) e in
          rw (e, last_index_before, ge→ltb t timestamp late) (scan_newer n k (ground arith) newer)
    ]
    | inr above ↦ let same : k ≡ suc n = ground arith in rw same refl
  ]

  unfold_scan :
      (i t : ℕ) (r : Report)
      → s.timestamps i ≡ some t
      → s.reports t ≡ some r
      → t < timestamp
      → last_index_before s timestamp (suc i)
        ≡ (if r.is_disputed then last_index_before s timestamp i else some i)
  unfolding last_index_before
  unfold_scan i t r listed known older = ground arith

  unfold_settle :
      (i t : ℕ) (r : Report)
      → s.reports t ≡ some r
      → settle s t i ≡ (if r.is_disputed then r.previous and_then index_of else some i)
  unfolding settle index_of
  unfold_settle i t r known = ground arith

  -- At a candidate the code returns what the scan finds.
  pub settle_scan :
      (i t : ℕ)
      → s.timestamps i ≡ some t
      → t < timestamp
      → ((j u : ℕ) → suc i ≤ j → s.timestamps j ≡ some u → timestamp ≤ u)
      → i < s.count
      → settle s t i ≡ last_index_before s timestamp s.count
  settle_scan i t listed older newer le =
      let e = scan_newer s.count (suc i) le newer in
      let below =
        scan_older i (omega arith)
          (λ j u lt h. let r = v.increasing j i u t h listed lt in omega arith) in
      let (t', r, listed', reported, index) = v.listed i le in
      let same : t' ≡ t = cc in
      let known : s.reports t ≡ some r = cc in
      let chain : r.previous ≡ last_undisputed s i = cc (v.previous t r known) in
      let shown : (r.previous and_then index_of) ≡ last_index_before s timestamp i =
        rw chain below in
      ground (arith, unfold_settle i t r known, unfold_scan i t r listed known older)
