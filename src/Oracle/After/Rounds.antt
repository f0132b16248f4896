-- ===== src/Oracle/After/Rounds.antt =====
-- One round of the search: it finds the first report that is later, or halves the distance of the
-- bounds. The first loop of `get_index_for_data_after` in src/impls.rs.
use tellor_pallet.Base.{
  ℕ, zero, suc, ◌+◌, ◌-◌, ◌/◌, ◌≤◌, ◌<◌, ◌≡◌, refl, some, if◌then◌else◌, leb, ltb, arith, ◌⊎◌, inl,
  inr, Bool-cases, eq_cases, ◌∙◌,
}
use tellor_pallet.Base.Machine.{saturating_add, u32_max}
use tellor_pallet.Oracle.Series.{Series, IsSeries}
use tellor_pallet.Oracle.Invariant.{index_lt_count}
use tellor_pallet.Oracle.After.{Probe, candidate, narrow, after_turn, after_loop, time_or_zero}

-- How far apart the bounds may lie for a number of rounds.
abbrev pub reach : ℕ → ℕ
reach zero = 1
reach (suc k) = reach k + reach k

module _ (s : Series) (v : IsSeries s) (timestamp : ℕ) where
  -- The bounds of the search: the first is not later, the second is.
  pub record Span (start end : ℕ) : Type 0 where
    pub lower : ℕ
    pub upper : ℕ
    pub starts : s.timestamps start ≡ some lower
    pub older : lower ≤ timestamp
    pub ends : s.timestamps end ≡ some upper
    pub newer : timestamp < upper

  -- The first report that is later.
  pub record Candidate (m t : ℕ) : Type 0 where
    pub here : s.timestamps m ≡ some t
    pub late : timestamp < t
    pub first : (j u : ℕ) → j < m → s.timestamps j ≡ some u → u ≤ timestamp

  abbrev Outcome : ℕ → ℕ → Probe → Type 0
  Outcome start end probe =
      ((m : ℕ) × (t : ℕ) × (probe ≡ candidate m t) × Candidate m t)
      ⊎ ((start' : ℕ) × (end' : ℕ) × (probe ≡ narrow start' end')
          × Span start' end'
          × (end' - start') + (end' - start') ≤ end - start)

  Span-lt : (start end : ℕ) → Span start end → start < end
  Span-lt start end b = elim (Bool-cases (ltb start end)) [
    | inl below ↦ ground arith
    | inr ge ↦ elim (eq_cases start end) [
      | inl same ↦
          let e : b.lower ≡ b.upper = cc (b.starts, b.ends) in
          absurd (omega (arith, b.older, b.newer, e))
      | inr other ↦
          let wrong = v.increasing end start b.upper b.lower b.ends b.starts (ground arith) in
          absurd (omega (arith, b.older, b.newer, wrong))
    ]
  ]

  -- Before a report that is not later, none is.
  pub not_later_before :
      (k t : ℕ)
      → s.timestamps k ≡ some t
      → t ≤ timestamp
      → (j u : ℕ) → j < suc k
      → s.timestamps j ≡ some u
      → u ≤ timestamp
  not_later_before k t e old j u lt eu = elim (eq_cases j k) [
    | inl same ↦ let eq : u ≡ t = cc in omega arith
    | inr other ↦ let less = v.increasing j k u t eu e (omega arith) in omega arith
  ]

  module _ (start end : ℕ) (b : Span start end) (fits : end + end ≤ u32_max) where
    middle_bounds :
        (saturating_add u32_max end start / 2 ≡ (end + start) / 2)
        × (start ≤ (end + start) / 2)
        × ((end + start) / 2 < end)
    middle_bounds = let lt = Span-lt start end b in (ground arith, omega arith, omega arith)

    turn_later :
        (m t p : ℕ)
        → saturating_add u32_max end start / 2 ≡ m
        → s.timestamps m ≡ some t
        → timestamp < t
        → s.timestamps (m - 1) ≡ some p
        → after_turn s timestamp start end
          ≡ (if leb p timestamp then candidate m t else narrow start (m - 1))
    unfolding after_turn
    turn_later m t p em et late ep =
        let e1 : time_or_zero s m ≡ t = ground arith in
        let e2 : time_or_zero s (m - 1) ≡ p = ground arith in rw (em, e1, e2) (ground arith)

    turn_older :
        (m t q : ℕ)
        → saturating_add u32_max end start / 2 ≡ m
        → s.timestamps m ≡ some t
        → t ≤ timestamp
        → s.timestamps (m + 1) ≡ some q
        → m < u32_max
        → after_turn s timestamp start end
          ≡ (if ltb timestamp q then candidate (m + 1) q else narrow (m + 1) end)
    unfolding after_turn
    turn_older m t q em et old eq low =
        let e0 : saturating_add u32_max m 1 ≡ m + 1 = ground arith in
        let e1 : time_or_zero s m ≡ t = ground arith in
        let e2 : time_or_zero s (m + 1) ≡ q = ground arith in rw (em, e1, e0, e2) (ground arith)

    later_half :
        (m t : ℕ)
        → (end + start) / 2 ≡ m
        → s.timestamps m ≡ some t
        → timestamp < t
        → Outcome start end (after_turn s timestamp start end)
    later_half m t em et late =
        let (e, low, high) = middle_bounds in
        let inside = index_lt_count s v m t et in
        let above : start < m = Span-lt start m (record {
          lower = b.lower;
          upper = t;
          starts = b.starts;
          older = b.older;
          ends = et;
          newer = late;
        }) in
        let (p, r, ep, reported, index) = v.listed (m - 1) (omega arith) in
        let turn = turn_later m t p (e ∙ em) et late ep in
        elim (Bool-cases (leb p timestamp)) [
          | inl old ↦ inl (
            m,
            t,
            rw (turn, old) refl,
            record {
              here = et;
              late = late;
              first =
                  λ j u lt eu. not_later_before (m - 1) p ep (ground arith) j u (omega arith) eu;
            },
          )
          | inr young ↦ inr (
            start,
            m - 1,
            rw (turn, young) refl,
            record {
              lower = b.lower;
              upper = p;
              starts = b.starts;
              older = b.older;
              ends = ep;
              newer = ground arith;
            },
            omega arith,
          )
        ]

    older_half :
        (m t : ℕ)
        → (end + start) / 2 ≡ m
        → s.timestamps m ≡ some t
        → t ≤ timestamp
        → Outcome start end (after_turn s timestamp start end)
    older_half m t em et old =
        let (e, low, high) = middle_bounds in
        let inside = index_lt_count s v end b.upper b.ends in
        let (q, r, eq, reported, index) = v.listed (m + 1) (omega arith) in
        let turn = turn_older m t q (e ∙ em) et old eq (omega arith) in
        elim (Bool-cases (ltb timestamp q)) [
          | inl young ↦ inl (
            m + 1,
            q,
            rw (turn, young) refl,
            record {
              here = eq;
              late = ground arith;
              first = λ j u lt eu. not_later_before m t et old j u (omega arith) eu;
            },
          )
          | inr aged ↦ inr (
            m + 1,
            end,
            rw (turn, aged) refl,
            record {
              lower = q;
              upper = b.upper;
              starts = eq;
              older = ground arith;
              ends = b.ends;
              newer = b.newer;
            },
            omega arith,
          )
        ]

    turn_lem : Outcome start end (after_turn s timestamp start end)
    turn_lem =
        let (e, low, high) = middle_bounds in
        let m = (end + start) / 2 in
        let inside = index_lt_count s v end b.upper b.ends in
        let (t, r, et, reported, index) = v.listed m (omega arith) in
        elim (Bool-cases (ltb timestamp t)) [
          | inl late ↦ later_half m t refl et (ground arith)
          | inr old ↦ older_half m t refl et (ground arith)
        ]

  -- With a fuel of at least `k` the loop ends on the first report that is later.
  pub loop_lem :
      (k fuel start end : ℕ)
      → s.count + s.count ≤ u32_max
      → Span start end
      → end - start < reach k
      → k ≤ fuel
      → (m : ℕ) × (t : ℕ) × (after_loop fuel s timestamp start end ≡ some (m, t)) × Candidate m t
  unfolding after_loop
  loop_lem zero fuel start end fits b near le = let lt = Span-lt start end b in absurd (omega arith)
  loop_lem (suc k) zero start end fits b near le = absurd (omega arith)
  loop_lem (suc k) (suc fuel) start end fits b near le =
      let inside = index_lt_count s v end b.upper b.ends in
      elim (turn_lem start end b (omega arith)) [
        | inl (m, t, turn, found) ↦ (m, t, rw (turn, after_loop) refl, found)
        | inr (start', end', turn, b', half) ↦
            let lower = Span-lt start' end' b' in
            let (m, t, done, found) =
              loop_lem k fuel start' end' fits b' (omega arith) (omega arith) in
            (m, t, rw (turn, after_loop) done, found)
      ]
