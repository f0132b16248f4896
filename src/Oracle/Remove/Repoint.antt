-- ===== src/Oracle/Remove/Repoint.antt =====
-- The loop of `remove_value` in src/impls.rs, which points later reports past the removed one.
use native.Mathlib.Numerals.{add-one}
use tellor_pallet.Base.{
  ℕ, zero, suc, ◌+◌, ◌≤◌, ◌<◌, ◌≡◌, ◌≢◌, refl, sym, ◌∙◌, true, false, some, arith, Option-cases,
  Bool-cases, eq_cases, inl, inr, ltb, ltb→lt, ◌⊎◌, set,
}
use tellor_pallet.Base.Machine.{u32_max, saturating_inc}
use tellor_pallet.Types.{Report, ok}
use tellor_pallet.Oracle.Series.{Series, IsSeries, last_undisputed, is_in_dispute}
use tellor_pallet.Oracle.Invariant.{index_lt_count, count_le_index, same_time}
use tellor_pallet.Oracle.Remove.{repoint, Reports}
use tellor_pallet.Oracle.Remove.Marked.{
  marked, marked_below, AllDisputed, marked_between, marked_above,
}

module _ (s : Series) (v : IsSeries s) (removed : ℕ) (r : Report)
    (known : s.reports removed ≡ some r) (stands : r.is_disputed ≡ false) where
  -- The state of the loop at an index: the reports below it have their new `previous`, the others
  -- their old one, and all between the removed report and the index are disputed.
  pub record Progress (i : ℕ) (reports : Reports) : Type 0 where
    pub shape :
        (u : ℕ) (q : Report)
        → reports u ≡ some q
        → (q₀ : Report) × (s.reports u ≡ some q₀)
          × (q.index ≡ q₀.index)
          × (q.is_disputed ≡ q₀.is_disputed)
    pub kept : (u : ℕ) (q₀ : Report) → s.reports u ≡ some q₀ → (q : Report) × (reports u ≡ some q)
    pub done :
        (u : ℕ) (q : Report)
        → reports u ≡ some q
        → q.index < i
        → q.previous ≡ last_undisputed (marked s v removed r known stands) q.index
    pub ahead :
        (u : ℕ) (q : Report)
        → reports u ≡ some q
        → i ≤ q.index
        → q.previous ≡ last_undisputed s q.index
    pub between : (AllDisputed s v removed r known stands) i

  -- At the end every report has its new `previous`.
  pub record Finished (reports : Reports) : Type 0 where
    pub shape :
        (u : ℕ) (q : Report)
        → reports u ≡ some q
        → (q₀ : Report) × (s.reports u ≡ some q₀)
          × (q.index ≡ q₀.index)
          × (q.is_disputed ≡ q₀.is_disputed)
    pub kept : (u : ℕ) (q₀ : Report) → s.reports u ≡ some q₀ → (q : Report) × (reports u ≡ some q)
    pub done :
        (u : ℕ) (q : Report)
        → reports u ≡ some q
        → q.previous ≡ last_undisputed (marked s v removed r known stands) q.index

  pub Progress-start : Progress (suc r.index) s.reports
  Progress-start = record {
    shape = λ u q e. (q, e, refl, refl);
    kept = λ u q e. (q, e);
    done = λ u q e lt.
        v.previous u q e ∙ sym ((marked_below s v removed r known stands) q.index (omega arith));
    ahead = λ u q e le. v.previous u q e;
    between = λ j w lo hi e. absurd (omega arith);
  }

  -- Past the last index the work is done.
  Progress-end : (i : ℕ) (reports : Reports) → Progress i reports → s.count ≤ i → Finished reports
  Progress-end i reports p le = record {
    shape = p.shape;
    kept = p.kept;
    done = λ u q e.
        let (q₀, e₀, index, _) = p.shape u q e in
        let lt = index_lt_count s v q₀.index u (v.reported u q₀ e₀) in p.done u q e (omega arith);
  }

  module _ (i w : ℕ) (q : Report) (reports : Reports) (p : Progress i reports)
      (at : s.timestamps i ≡ some w) (here : reports w ≡ some q) (gt : r.index < i) where
    index_here : q.index ≡ i
    index_here =
        let (q₀, e₀, index, _) = p.shape w q here in
        let (w', q', e', er, ei) = v.listed i (index_lt_count s v i w at) in
        let same : w' ≡ w = cc in
        let known' : s.reports w ≡ some q' = rw (← same) er in
        let equal : q' ≡ q₀ = cc in index ∙ (rw (← equal) ei)

    abbrev updated : Reports
    updated = set w (some (record q { previous = r.previous })) reports

    new_previous : r.previous ≡ last_undisputed (marked s v removed r known stands) i
    new_previous =
        let lt = index_lt_count s v i w at in
        sym ((marked_between s v removed r known stands) i gt (omega arith) p.between)

    updated_cases :
        (u : ℕ) (x : Report)
        → updated u ≡ some x
        → ((u ≡ w) × (x ≡ record q { previous = r.previous })) ⊎ ((u ≢ w) × (reports u ≡ some x))
    updated_cases u x e = elim (eq_cases u w) [
      | inl same ↦ inl (same, ground arith)
      | inr other ↦ inr (other, ground arith)
    ]

    updated-shape :
        (u : ℕ) (x : Report)
        → updated u ≡ some x
        → (q₀ : Report) × (s.reports u ≡ some q₀)
          × (x.index ≡ q₀.index)
          × (x.is_disputed ≡ q₀.is_disputed)
    updated-shape u x e = elim (updated_cases u x e) [
      | inl (same, new) ↦
          let (q₀, e₀, index, disputed) = p.shape w q here in
          (q₀, rw same e₀, rw new index, rw new disputed)
      | inr (other, old) ↦ p.shape u x old
    ]

    updated-kept :
        (u : ℕ) (q₀ : Report) → s.reports u ≡ some q₀ → (x : Report) × (updated u ≡ some x)
    updated-kept u q₀ e = elim (eq_cases u w) [
      | inl same ↦ (record q { previous = r.previous }, ground arith)
      | inr other ↦ let (x, ex) = p.kept u q₀ e in (x, ground arith)
    ]

    -- Two reports of one index are of one time.
    other_index : (u : ℕ) (x : Report) → u ≢ w → reports u ≡ some x → x.index ≢ i
    other_index u x ne e at_i =
        let (q₀, e₀, index, _) = p.shape u x e in
        absurd (ne (same_time s q₀.index i u w (v.reported u q₀ e₀) at (sym index ∙ at_i)))

    updated-done :
        (u : ℕ) (x : Report)
        → updated u ≡ some x
        → x.index < suc i
        → x.previous ≡ last_undisputed (marked s v removed r known stands) x.index
    updated-done u x e lt = elim (updated_cases u x e) [
      | inl (same, new) ↦ rw (new, index_here) new_previous
      | inr (other, old) ↦ let ne = other_index u x other old in p.done u x old (omega arith)
    ]

    updated-ahead :
        (u : ℕ) (x : Report)
        → updated u ≡ some x
        → suc i ≤ x.index
        → x.previous ≡ last_undisputed s x.index
    updated-ahead u x e le = elim (updated_cases u x e) [
      | inl (same, new) ↦ let at_i : x.index ≡ i = rw new index_here in absurd (omega arith)
      | inr (other, old) ↦ p.ahead u x old (omega arith)
    ]

    disputed_here : is_in_dispute s w ≡ q.is_disputed
    disputed_here =
        let (q₀, e₀, _, disputed) = p.shape w q here in rw (e₀, is_in_dispute) (sym disputed)

    -- A disputed report: the loop goes on.
    Progress-next : q.is_disputed ≡ true → Progress (suc i) updated
    Progress-next gone = record {
      shape = updated-shape;
      kept = updated-kept;
      done = updated-done;
      ahead = updated-ahead;
      between = λ j x lo hi e. elim (eq_cases j i) [
        | inl same ↦ rw (same_time s j i x w e at same) (disputed_here ∙ gone)
        | inr other ↦ p.between j x lo (omega arith) e
      ];
    }

    -- An undisputed report: the loop ends.
    Progress-stop : q.is_disputed ≡ false → Finished updated
    Progress-stop up = record {
      shape = updated-shape;
      kept = updated-kept;
      done = λ u x e. elim (Bool-cases (ltb x.index (suc i))) [
        | inl lt ↦ updated-done u x e (ltb→lt _ _ lt)
        | inr ge ↦
            let (q₀, e₀, index, _) = updated-shape u x e in
            let bound = index_lt_count s v q₀.index u (v.reported u q₀ e₀) in
            updated-ahead u x e (ground arith)
            ∙ sym (
                (marked_above s v removed r known stands) i w x.index at (disputed_here ∙ up) gt
                  (ground arith) (omega arith))
      ];
    }

  -- A loop that ends without an error has given every report its new `previous`.
  pub repoint-Finished :
      (rounds max i iterations : ℕ) (reports : Reports) (p : Progress i reports)
      → r.index < i
      → rounds + iterations ≡ max + 1
      → iterations ≤ max
      → max < u32_max
      → (result : Reports) (n : ℕ)
      → repoint rounds max s.timestamps r.previous i iterations reports ≡ ok (result, n)
      → Finished result
  unfolding repoint
  repoint-Finished zero max i iterations reports p gt sum le room result n e = absurd (omega arith)
  repoint-Finished (suc rounds) max i iterations reports p gt sum le room result n e =
      elim (Bool-cases (ltb max (saturating_inc u32_max iterations))) [
        | inl over ↦ absurd (ground arith)
        | inr within ↦ elim (Option-cases (s.timestamps i)) [
          | inl last ↦
              let same : reports ≡ result = ground arith in
              rw (← same) (Progress-end i reports p (count_le_index s v i last))
          | inr (w, at) ↦
              let (w', q₀, at', known₀, _) = v.listed i (index_lt_count s v i w at) in
              let known_w : s.reports w ≡ some q₀ = rw (same_time s i i w w' at at' refl) known₀ in
              let (q, here) = p.kept w q₀ known_w in
              elim (Bool-cases q.is_disputed) [
                | inl gone ↦
                    repoint-Finished rounds max (i + 1) (saturating_inc u32_max iterations)
                      (updated i w q reports p at here gt)
                      (rw (add-one i) (Progress-next i w q reports p at here gt gone)) (omega arith)
                      (ground arith) (ground arith) room result n (ground arith)
                | inr up ↦
                    let same : updated i w q reports p at here gt ≡ result = ground arith in
                    rw (← same) (Progress-stop i w q reports p at here gt up)
              ]
        ]
      ]
