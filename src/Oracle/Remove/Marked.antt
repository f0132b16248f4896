-- ===== src/Oracle/Remove/Marked.antt =====
-- A series with one report marked as disputed: what `remove_value` of src/impls.rs makes of it
-- before its loop.
use tellor_pallet.Base.{
  ℕ, zero, suc, ◌≤◌, ◌<◌, ◌≡◌, ◌≢◌, refl, sym, ◌∙◌, Bool, true, false, Option, some, arith,
  eq_cases, inl, inr, ◌⊎◌, set, if◌then◌else◌,
}
use tellor_pallet.Types.{Report}
use tellor_pallet.Oracle.Series.{Series, IsSeries, last_undisputed, is_in_dispute}
use tellor_pallet.Oracle.Invariant.{
  index_lt_count, last_undisputed-cong, last_undisputed-suc, same_time,
}
use tellor_pallet.Oracle.Remove.{step_back}

if_same :
    (b : Bool) (x y z : Option ℕ)
    → (b ≡ false) ⊎ (x ≡ y)
    → (if b then x else z) ≡ (if b then y else z)
if_same b x y z h = ground arith

step_back_self : (t : ℕ) (p : Option ℕ) → step_back t p (some t) ≡ p
step_back_self t p = ground arith

step_back_branch :
    (t u : ℕ) (p : Option ℕ) (b : Bool) (x y : Option ℕ)
    → u ≢ t
    → x ≡ step_back t p y
    → (if b then x else some u) ≡ step_back t p (if b then y else some u)
step_back_branch t u p true x y ne e = e
step_back_branch t u p false x y ne e = ground arith

module _ (s : Series) (v : IsSeries s) (removed : ℕ) (r : Report)
    (known : s.reports removed ≡ some r) (stands : r.is_disputed ≡ false) where
  -- The series with the removed report marked as disputed, and no other change.
  abbrev pub marked : Series
  marked = record s { reports = set removed (some (record r { is_disputed = true })) s.reports }

  removed_at : s.timestamps r.index ≡ some removed
  removed_at = v.reported removed r known

  marked_other : (u : ℕ) → u ≢ removed → is_in_dispute marked u ≡ is_in_dispute s u
  marked_other u ne = ground arith

  -- An index with another time than the removed one.
  other_time : (i u : ℕ) → s.timestamps i ≡ some u → i ≢ r.index → u ≢ removed
  other_time i u e ne same =
      let listed = removed_at in
      let (t, q, e', er, ei) = v.listed i (index_lt_count s v i u e) in
      let eq1 : t ≡ u = cc in
      let eq2 : s.reports removed ≡ some q = rw (← same, ← eq1) er in
      let eq3 : r ≡ q = cc in let eq4 : r.index ≡ i = rw eq3 ei in absurd (omega arith)

  -- Below the removed report nothing changes.
  pub marked_below : (n : ℕ) → n ≤ r.index → last_undisputed marked n ≡ last_undisputed s n
  marked_below n le =
      last_undisputed-cong s marked n (λ i lt. refl)
        (λ i u lt e. marked_other u (other_time i u e (omega arith)))

  abbrev pub AllDisputed : ℕ → Type 0
  AllDisputed n =
      (j w : ℕ) → r.index < j → j < n → s.timestamps j ≡ some w → is_in_dispute s w ≡ true

  pub marked-removed : is_in_dispute marked removed ≡ true
  marked-removed = ground arith

  -- Up to the next undisputed report, the last undisputed one is that before the removed.
  pub marked_between :
      (n : ℕ) → r.index < n → n ≤ s.count → AllDisputed n → last_undisputed marked n ≡ r.previous
  marked_between zero lt le disputed = absurd (omega arith)
  marked_between (suc i) lt le disputed = elim (eq_cases i r.index) [
    | inl same ↦
        rw (same, last_undisputed-suc marked r.index removed removed_at, marked-removed)
          (marked_below r.index (omega arith) ∙ sym (v.previous removed r known))
    | inr ne ↦
        let (u, q, e, _, _) = v.listed i (omega arith) in
        let gone =
          marked_other u (other_time i u e ne) ∙ disputed i u (omega arith) (omega arith) e in
        rw (last_undisputed-suc marked i u e, gone)
          (marked_between i (omega arith) (omega arith)
            (λ j w lo hi. disputed j w lo (omega arith)))
  ]

  -- Above an undisputed report after the removed one, nothing changes.
  pub marked_above :
      (i u n : ℕ)
      → s.timestamps i ≡ some u
      → is_in_dispute s u ≡ false
      → r.index < i
      → i < n
      → n ≤ s.count
      → last_undisputed marked n ≡ last_undisputed s n
  marked_above i u zero e up gt lt le = absurd (omega arith)
  marked_above i u (suc n) e up gt lt le =
      let (w, q, ew, _, _) = v.listed n (omega arith) in
      let same_w = marked_other w (other_time n w ew (omega arith)) in
      rw (last_undisputed-suc marked n w ew, last_undisputed-suc s n w ew, same_w)
        (if_same (is_in_dispute s w) _ _ _ (elim (eq_cases n i) [
          | inl at ↦ let eq = same_time s i n u w e ew (sym at) in inl (rw (← eq) up)
          | inr later ↦ inr (marked_above i u n e up gt (omega arith) (omega arith))
        ]))

  -- Marking the removed report moves the last undisputed one back, if it was the removed one.
  pub marked_steps_back :
      (n : ℕ)
      → n ≤ s.count
      → last_undisputed marked n ≡ step_back removed r.previous (last_undisputed s n)
  unfolding last_undisputed
  marked_steps_back zero le = refl
  marked_steps_back (suc i) le =
      let (u, q, e, known_u, index) = v.listed i le in
      let rest = marked_steps_back i (omega arith) in
      elim (eq_cases u removed) [
        | inl same ↦
            let eq : r ≡ q = same_report u q same known_u in
            let at : r.index ≡ i = rw eq index in
            let below = marked_below i (omega arith) in
            let chain : r.previous ≡ last_undisputed s i = rw (← at) (v.previous removed r known) in
            let here : s.timestamps i ≡ some removed = rw (← same) e in
            let up : is_in_dispute s removed ≡ false = rw (known, is_in_dispute) stands in
            rw
              (
                last_undisputed-suc marked i removed here,
                last_undisputed-suc s i removed here,
                marked-removed,
                up,
              )
              (below ∙ sym chain ∙ sym (step_back_self removed r.previous))
        | inr other ↦
            rw (last_undisputed-suc marked i u e, last_undisputed-suc s i u e, marked_other u other)
              (step_back_branch removed u r.previous (is_in_dispute s u) _ _ other rest)
      ]
    where
      same_report : (u : ℕ) (q : Report) → u ≡ removed → s.reports u ≡ some q → r ≡ q
      same_report u q same e = cc
