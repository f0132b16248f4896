-- ===== src/Oracle/After/Collect.antt =====
-- The loop of `get_multiple_values_before` of src/impls.rs, which collects times.
use tellor_pallet.Base.{
  ℕ, zero, suc, ◌+◌, ◌-◌, ◌≤◌, ◌<◌, ◌≡◌, ◌⊎◌, refl, sym, ◌∙◌, Bool, true, false, Option, none, some,
  List, [], ◌∷◌, ltb, leb, ◌&&◌, arith, inl, inr, Bool-cases, Option-cases, take, reverse_onto,
  if◌then◌else◌,
}
use tellor_pallet.Base.Machine.{saturating_add, saturating_inc, u32_max}
use tellor_pallet.Oracle.Series.{Series, is_in_dispute}
use tellor_pallet.Oracle.After.{collect_before}

-- The times of the reports that are not disputed, from an index on and below another, the newest
-- first.
abbrev pub standing : Series → ℕ → ℕ → List ℕ
standing s from zero = []
standing s from (suc k) =
    let rest = standing s from k in
    if leb from k
    then elim (s.timestamps k) [
      | none ↦ rest
      | some t ↦ if is_in_dispute s t then rest else t ∷ rest
    ]
    else []

take-nil : (n : ℕ) → take {A = ℕ} n [] ≡ []
take-nil zero = refl
take-nil (suc n) = refl

module _ (s : Series) (start_index end_index max_count : ℕ) where
  -- The test of the loop.
  abbrev goes_on : ℕ → ℕ → Bool
  goes_on value_count index =
      ltb value_count max_count && ltb start_index (saturating_add u32_max end_index 1 - index)

  -- The loop, from a count of values, an index and the times collected.
  abbrev run : ℕ → ℕ → ℕ → List ℕ → Option (List ℕ)
  run fuel = collect_before fuel s start_index end_index max_count

  run_over :
      (fuel value_count index : ℕ) (ts : List ℕ)
      → goes_on value_count index ≡ false
      → run (suc fuel) value_count index ts ≡ some ts
  unfolding collect_before
  run_over fuel value_count index ts e = simp (collect_before, e)

  run_unlisted :
      (fuel value_count index : ℕ) (ts : List ℕ)
      → goes_on value_count index ≡ true
      → s.timestamps (end_index - index) ≡ none
      → run (suc fuel) value_count index ts ≡ run fuel value_count (saturating_inc u32_max index) ts
  unfolding collect_before
  run_unlisted fuel value_count index ts e gone = simp (collect_before, e, gone)

  run_disputed :
      (fuel value_count index t : ℕ) (ts : List ℕ)
      → goes_on value_count index ≡ true
      → s.timestamps (end_index - index) ≡ some t
      → is_in_dispute s t ≡ true
      → run (suc fuel) value_count index ts ≡ run fuel value_count (saturating_inc u32_max index) ts
  unfolding collect_before
  run_disputed fuel value_count index t ts e et disputed = cc

  run_stands :
      (fuel value_count index t : ℕ) (ts : List ℕ)
      → goes_on value_count index ≡ true
      → s.timestamps (end_index - index) ≡ some t
      → is_in_dispute s t ≡ false
      → run (suc fuel) value_count index ts
        ≡ run fuel (value_count + 1) (saturating_inc u32_max index) (t ∷ ts)
  unfolding collect_before
  run_stands fuel value_count index t ts e et stands = ground arith

  standing-below : (k : ℕ) → k ≤ start_index → standing s start_index k ≡ []
  standing-below zero h = refl
  standing-below (suc k) h = let out : leb start_index k ≡ false = ground arith in rw out refl

  -- What the loop is still to collect.
  abbrev to_collect : ℕ → ℕ → List ℕ
  to_collect n k = take (max_count - n) (standing s start_index k)

  to_collect-over : (n k : ℕ) → (max_count ≤ n) ⊎ (k ≤ start_index) → to_collect n k ≡ []
  to_collect-over n k (inl full) = let no_more : max_count - n ≡ 0 = omega arith in rw no_more refl
  to_collect-over n k (inr past) = rw (standing-below k past) (take-nil (max_count - n))

  to_collect-skip :
      (n k : ℕ)
      → start_index ≤ k
      → (s.timestamps k ≡ none) ⊎ ((t : ℕ) × (s.timestamps k ≡ some t) × (is_in_dispute s t ≡ true))
      → to_collect n (suc k) ≡ to_collect n k
  to_collect-skip n k h (inl gone) =
      let inside : leb start_index k ≡ true = ground arith in rw (inside, gone) refl
  to_collect-skip n k h (inr (t, et, disputed)) =
      let inside : leb start_index k ≡ true = ground arith in rw (inside, et, disputed) refl

  to_collect-push :
      (n k t : ℕ)
      → start_index ≤ k
      → n < max_count
      → s.timestamps k ≡ some t
      → is_in_dispute s t ≡ false
      → to_collect n (suc k) ≡ t ∷ to_collect (n + 1) k
  to_collect-push n k t h lt et stands =
      let inside : leb start_index k ≡ true = ground arith in
      let more : max_count - n ≡ suc (max_count - (n + 1)) = omega arith in
      rw (inside, et, stands, more) refl

  -- The loop puts what is left to collect in front of what it has, in the order of the times.
  run_lem :
      (fuel n i : ℕ) (ts : List ℕ)
      → end_index < u32_max
      → i ≤ end_index + 1
      → end_index + 2 ≤ fuel + i
      → run fuel n i ts ≡ some (reverse_onto (to_collect n (end_index + 1 - i)) ts)
  unfolding collect_before
  run_lem zero n i ts room h enough = absurd (omega arith)
  run_lem (suc fuel) n i ts room h enough = elim (Bool-cases (goes_on n i)) [
    | inr over ↦
        let done : (max_count ≤ n) ⊎ (end_index + 1 - i ≤ start_index) = ground arith in
        rw (to_collect-over n (end_index + 1 - i) done) (run_over fuel n i ts over)
    | inl on ↦
        let next : saturating_inc u32_max i ≡ i + 1 = ground arith in
        let inside : start_index ≤ end_index - i = ground arith in
        let lt : n < max_count = ground arith in
        let here : end_index + 1 - i ≡ suc (end_index - i) = ground arith in
        let there : end_index + 1 - (i + 1) ≡ end_index - i = omega arith in
        let rest =
          λ (m : ℕ) (us : List ℕ). run_lem fuel m (i + 1) us room (ground arith) (omega arith) in
        elim (Option-cases (s.timestamps (end_index - i))) [
          | inl gone ↦
              run_unlisted fuel n i ts on gone
              ∙ rw (next, here, to_collect-skip n (end_index - i) inside (inl gone), sym there)
                  (rest n ts)
          | inr (t, et) ↦ elim (Bool-cases (is_in_dispute s t)) [
            | inl disputed ↦
                run_disputed fuel n i t ts on et disputed
                ∙ rw
                    (
                      next,
                      here,
                      to_collect-skip n (end_index - i) inside (inr (t, et, disputed)),
                      sym there,
                    )
                    (rest n ts)
            | inr stands ↦
                run_stands fuel n i t ts on et stands
                ∙ rw
                    (next, here, to_collect-push n (end_index - i) t inside lt et stands, sym there)
                    (rest (n + 1) (t ∷ ts))
          ]
        ]
  ]

  -- The loop that collects the times of a period ends within its fuel, two more than the last
  -- index, where that is less than 2^32 - 1: it returns the newest times from the first index to
  -- the last that are not disputed, as many as asked for or all of them, from the oldest to the
  -- newest.
  pub collect_before-standing :
      end_index < u32_max
      → collect_before (end_index + 2) s start_index end_index max_count 0 0 []
        ≡ some (reverse_onto (take max_count (standing s start_index (end_index + 1))) [])
  collect_before-standing room =
      let whole : max_count - 0 ≡ max_count = omega arith in
      let all : end_index + 1 - 0 ≡ end_index + 1 = omega arith in
      rw (whole, all) at (run_lem (end_index + 2) 0 0 [] room (omega arith) (omega arith))
