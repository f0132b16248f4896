-- ===== src/Oracle/Before/Rounds.antt =====
-- One round of the search: it returns what the scan finds, or halves the distance of the bounds.
use tellor_pallet.Base.{
  ℕ, ◌+◌, ◌-◌, ◌/◌, ◌≤◌, ◌<◌, ◌≡◌, ap, some, if◌then◌else◌, ltb, leb, arith, ◌⊎◌, inl, inr,
  Bool-cases, ltb→lt, lt→ltb, leb→le, le→leb, ge→ltb,
}
use tellor_pallet.Base.Machine.{wrapping_add, u32_max}
use tellor_pallet.Oracle.Series.{Series, IsSeries, last_index_before}
use tellor_pallet.Oracle.Before.{settle, middle_of, Turn, return, search, before_turn}
use tellor_pallet.Oracle.Before.Scan.{settle_scan}

module _ (s : Series) (v : IsSeries s) (timestamp : ℕ) where
  -- The bounds of the search: the first is older, the second is not.
  pub record Bracket (start end : ℕ) : Type 0 where
    pub lower : ℕ
    pub upper : ℕ
    pub starts : s.timestamps start ≡ some lower
    pub older : lower < timestamp
    pub ends : s.timestamps end ≡ some upper
    pub newer : timestamp ≤ upper

  abbrev Outcome : ℕ → ℕ → Turn → Type 0
  Outcome start end turn =
      (turn ≡ return (last_index_before s timestamp s.count))
      ⊎ ((start' : ℕ) × (end' : ℕ) × (turn ≡ search start' end')
          × Bracket start' end'
          × (end' - start') + (end' - start') ≤ end - start)

  -- Times order the indices.
  index_lt : (i j t u : ℕ) → s.timestamps i ≡ some t → s.timestamps j ≡ some u → t < u → i < j
  index_lt i j t u et eu lt = elim (Bool-cases (ltb i j)) [
    | inl below ↦ ltb→lt i j below
    | inr ge ↦ elim (Bool-cases (ltb j i)) [
      | inl above ↦
          let wrong = v.increasing j i u t eu et (ltb→lt j i above) in absurd (omega arith)
      | inr le ↦ let same : i ≡ j = ground arith in let equal : t ≡ u = cc in absurd (omega arith)
    ]
  ]

  -- Only an index below the count has a time.
  pub index_lt_count : (i t : ℕ) → s.timestamps i ≡ some t → i < s.count
  index_lt_count i t e = elim (Bool-cases (ltb i s.count)) [
    | inl below ↦ ltb→lt i s.count below
    | inr ge ↦ let gone = v.unlisted i (ground arith) in absurd (cc)
  ]

  pub Bracket-lt : (start end : ℕ) → Bracket start end → start < end
  Bracket-lt start end b = index_lt start end b.lower b.upper b.starts b.ends (omega arith)

  -- A later index has no earlier time.
  pub newer_from :
      (k u : ℕ)
      → s.timestamps k ≡ some u
      → timestamp ≤ u
      → (j w : ℕ) → k ≤ j
      → s.timestamps j ≡ some w
      → timestamp ≤ w
  newer_from k u ek late j w le ej = elim (Bool-cases (ltb w u)) [
    | inl lt ↦ let wrong = index_lt j k w u ej ek (ltb→lt w u lt) in absurd (omega arith)
    | inr ge ↦ ground arith
  ]

  -- The middle index lies above the first bound, and halves the distance.
  middle_of_lem :
      (start end : ℕ)
      → start < end
      → end ≤ u32_max
      → (m : ℕ) × (middle_of start end ≡ some m)
        × (start < m)
        × (m ≤ end)
        × (m - start + (m - start) ≤ end - start + 2)
        × (end - start + 1 ≤ m - start + (m - start))
  unfolding middle_of
  middle_of_lem start end lt fits = (
    (end - start) / 2 + 1 + start,
    ground arith,
    omega arith,
    omega arith,
    omega arith,
    omega arith,
  )

  turn_after_older :
      (start end m t u : ℕ)
      → middle_of start end ≡ some m
      → s.timestamps m ≡ some t
      → s.timestamps (m + 1) ≡ some u
      → m < u32_max
      → t < timestamp
      → before_turn s timestamp start end
        ≡ (if leb timestamp u then return (settle s t m) else search (m + 1) end)
  unfolding before_turn
  turn_after_older start end m t u em et eu fits lt =
      let wrap : wrapping_add u32_max m 1 ≡ m + 1 = omega arith in
      rw (em, et, lt→ltb t timestamp lt, wrap, eu, le→leb (m + 1) u32_max (omega arith))

  turn_after_newer :
      (start end m t w : ℕ)
      → middle_of start end ≡ some m
      → s.timestamps m ≡ some t
      → s.timestamps (m - 1) ≡ some w
      → 1 ≤ m
      → timestamp ≤ t
      → before_turn s timestamp start end
        ≡ (if ltb w timestamp then return (settle s w (m - 1)) else search start (m - 1))
  unfolding before_turn
  turn_after_newer start end m t w em et ew pos late =
      rw (em, et, ge→ltb t timestamp late, le→leb 1 m pos, ew)

  older_half :
      (start end m t : ℕ)
      → s.count ≤ u32_max
      → Bracket start end
      → middle_of start end ≡ some m
      → s.timestamps m ≡ some t
      → t < timestamp
      → m ≤ end
      → end - start + 1 ≤ m - start + (m - start)
      → Outcome start end (before_turn s timestamp start end)
  older_half start end m t fits b em et lt le high =
      let m_lt : m < end = index_lt m end t b.upper et b.ends (omega arith) in
      let end_lt = index_lt_count end b.upper b.ends in
      let (u, r, eu, _, _) = v.listed (m + 1) (omega arith) in
      let turn = turn_after_older start end m t u em et eu (omega arith) lt in
      elim (Bool-cases (leb timestamp u)) [
        | inl found ↦ inl (
            rw (turn, found)
              (ap return (
                settle_scan s v timestamp m t et lt
                  (λ j w gt. newer_from (m + 1) u eu (leb→le timestamp u found) j w (omega arith))
                  (omega arith))))
        | inr more ↦ inr (
          m + 1,
          end,
          rw (turn, more),
          record {
            lower = u;
            upper = b.upper;
            starts = eu;
            older = ground arith;
            ends = b.ends;
            newer = b.newer;
          },
          omega arith,
        )
      ]

  newer_half :
      (start end m t : ℕ)
      → Bracket start end
      → middle_of start end ≡ some m
      → s.timestamps m ≡ some t
      → timestamp ≤ t
      → start < m
      → m - start + (m - start) ≤ end - start + 2
      → Outcome start end (before_turn s timestamp start end)
  newer_half start end m t b em et late gt low =
      let m_lt = index_lt_count m t et in
      let (w, r, ew, _, _) = v.listed (m - 1) (omega arith) in
      let turn = turn_after_newer start end m t w em et ew (omega arith) late in
      elim (Bool-cases (ltb w timestamp)) [
        | inl found ↦ inl (
            rw (turn, found)
              (ap return (
                settle_scan s v timestamp (m - 1) w ew (ltb→lt w timestamp found)
                  (λ j x ge. newer_from m t et late j x (omega arith)) (omega arith))))
        | inr more ↦ inr (
          start,
          m - 1,
          rw (turn, more),
          record {
            lower = b.lower;
            upper = w;
            starts = b.starts;
            older = b.older;
            ends = ew;
            newer = ground arith;
          },
          omega arith,
        )
      ]

  -- A round returns what the scan finds, or halves the distance of the bounds.
  pub turn_lem :
      (start end : ℕ)
      → s.count ≤ u32_max
      → Bracket start end
      → Outcome start end (before_turn s timestamp start end)
  turn_lem start end fits b =
      let end_lt = index_lt_count end b.upper b.ends in
      let (m, em, gt, le, low, high) =
        middle_of_lem start end (Bracket-lt start end b) (omega arith) in
      let (t, r, et, _, _) = v.listed m (omega arith) in
      elim (Bool-cases (ltb t timestamp)) [
        | inl before ↦ older_half start end m t fits b em et (ltb→lt t timestamp before) le high
        | inr after ↦ newer_half start end m t b em et (ground arith) gt low
      ]
