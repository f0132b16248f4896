-- ===== src/Oracle/After/Values.antt =====
-- The values of a period: `get_multiple_values_before` of src/impls.rs.
use tellor_pallet.Base.{
  ℕ, zero, suc, ◌+◌, ◌-◌, ◌≤◌, ◌<◌, ◌≡◌, ◌⊎◌, refl, sym, ap, ◌∙◌, true, false, none, some, List, [],
  ◌∷◌, arith, inl, inr, Bool-cases, Option-cases, leb, unwrap_or,
}
use tellor_pallet.State.{Oracle}
use tellor_pallet.Oracle.Series.{Series, series, is_in_dispute, retrieve_data}
use tellor_pallet.Oracle.Meaning.{times_within, with_data}
use tellor_pallet.Oracle.Before.{get_index_for_data_before}
use tellor_pallet.Oracle.After.Collect.{standing}
use tellor_pallet.Oracle.After.{
  collect_before, values_of, get_index_for_data_after, get_multiple_values_before,
}

pub values_of-with_data :
    (o : Oracle) (query_id : ℕ) (ts : List ℕ)
    → values_of o query_id ts ≡ with_data (retrieve_data o query_id) ts
unfolding values_of
values_of-with_data o query_id [] = refl
values_of-with_data o query_id (t ∷ ts) =
    let rest = values_of-with_data o query_id ts in
    elim (Option-cases (retrieve_data o query_id t)) [
      | inl gone ↦ ground (arith, rest)
      | inr (value, e) ↦ ground (arith, rest)
    ]

module _ (s : Series) (bound timestamp : ℕ) where
  abbrev within : ℕ → List ℕ
  within = times_within s.timestamps (is_in_dispute s) bound timestamp

  -- A report that is not of the period, or disputed, adds nothing.
  within-skip :
      (k : ℕ)
      → ((t : ℕ) → s.timestamps k ≡ some t → bound < t → t < timestamp → is_in_dispute s t ≡ true)
      → within (suc k) ≡ within k
  within-skip k h = elim (Option-cases (s.timestamps k)) [
    | inl gone ↦ ground arith
    | inr (t, et) ↦ let outside = h t et in ground arith
  ]

  within-push :
      (k t : ℕ)
      → s.timestamps k ≡ some t
      → bound < t
      → t < timestamp
      → is_in_dispute s t ≡ false
      → within (suc k) ≡ t ∷ within k
  within-push k t et more less stands = ground arith

  -- Where all reports of the period below an index are disputed, there are no such times.
  pub within-empty :
      (k : ℕ)
      → ((j t : ℕ)
          → j < k
          → s.timestamps j ≡ some t
          → bound < t
          → t < timestamp
          → is_in_dispute s t ≡ true)
      → within k ≡ []
  within-empty zero h = refl
  within-empty (suc k) h =
      within-skip k (λ t. h k t (omega arith))
      ∙ within-empty k (λ j t lt. h j t (omega (arith, lt)))

  -- Past the last one that stands, nothing is added.
  pub within-high :
      (end_index more : ℕ)
      → ((j t : ℕ)
          → end_index < j
          → j < more + (end_index + 1)
          → s.timestamps j ≡ some t
          → t < timestamp
          → is_in_dispute s t ≡ true)
      → within (more + (end_index + 1)) ≡ within (end_index + 1)
  within-high end_index zero h = ap within (omega arith)
  within-high end_index (suc more) h =
      let here : suc more + (end_index + 1) ≡ suc (more + (end_index + 1)) = omega arith in
      ap within here
      ∙ within-skip (more + (end_index + 1))
          (λ t et later older. h (more + (end_index + 1)) t (omega arith) (omega arith) et older)
      ∙ within-high end_index more (λ j t lo hi. h j t lo (omega (arith, hi)))

  module _ (start_index : ℕ) where
    standing-skip :
        (k : ℕ)
        → leb start_index k ≡ true
        → (s.timestamps k ≡ none)
          ⊎ ((t : ℕ) × (s.timestamps k ≡ some t) × (is_in_dispute s t ≡ true))
        → standing s start_index (suc k) ≡ standing s start_index k
    standing-skip k from (inl gone) = ground arith
    standing-skip k from (inr (t, et, disputed)) = ground arith

    standing-out : (k : ℕ) → leb start_index k ≡ false → standing s start_index (suc k) ≡ []
    standing-out k past = ground arith

    standing-push :
        (k t : ℕ)
        → leb start_index k ≡ true
        → s.timestamps k ≡ some t
        → is_in_dispute s t ≡ false
        → standing s start_index (suc k) ≡ t ∷ standing s start_index k
    standing-push k t from et stands = ground arith

  -- From the first report after the bound on, the times before the time are those that stand.
  pub within-standing :
      (start_index k : ℕ)
      → ((j t : ℕ)
          → j < start_index
          → s.timestamps j ≡ some t
          → bound < t
          → is_in_dispute s t ≡ true)
      → ((j t : ℕ) → start_index ≤ j → s.timestamps j ≡ some t → bound < t)
      → ((j t : ℕ) → j < k → s.timestamps j ≡ some t → t < timestamp)
      → within k ≡ standing s start_index k
  within-standing start_index zero first later older = refl
  within-standing start_index (suc k) first later older = elim (Bool-cases (leb start_index k)) [
    | inr before ↦
        within-empty (suc k) (λ j t lt et more less. first j t (ground (arith, before, lt)) et more)
        ∙ sym (standing-out start_index k before)
    | inl from ↦
        let rest =
          within-standing start_index k first later (λ j t lt. older j t (omega (arith, lt))) in
        elim (Option-cases (s.timestamps k)) [
          | inl gone ↦
              within-skip k (λ t et. absurd (cc))
              ∙ rest
              ∙ sym (standing-skip start_index k from (inl gone))
          | inr (t, et) ↦
              let more = later k t (ground arith) et in
              let less = older k t (omega arith) et in
              elim (Bool-cases (is_in_dispute s t)) [
                | inl disputed ↦
                    within-skip k (λ u eu more' less'. let same : u ≡ t = cc in rw same disputed)
                    ∙ rest
                    ∙ sym (standing-skip start_index k from (inr (t, et, disputed)))
                | inr stands ↦
                    within-push k t et more less stands
                    ∙ ap (◌∷◌ t) rest
                    ∙ sym (standing-push start_index k t from et stands)
              ]
        ]
  ]

module _ (o : Oracle) (query_id timestamp max_age max_count : ℕ) where
  -- The three cases of the search: no start, no end, or both.
  pub no_start :
      get_index_for_data_after (series o query_id) (timestamp - max_age) ≡ none
      → get_multiple_values_before o query_id timestamp max_age max_count ≡ []
  unfolding get_multiple_values_before
  no_start e = ground arith

  pub no_end :
      (start_index : ℕ)
      → get_index_for_data_after (series o query_id) (timestamp - max_age) ≡ some start_index
      → get_index_for_data_before (series o query_id) timestamp ≡ none
      → get_multiple_values_before o query_id timestamp max_age max_count ≡ []
  unfolding get_multiple_values_before
  no_end start_index e e' = ground arith

  pub values_lem :
      (start_index end_index : ℕ)
      → get_index_for_data_after (series o query_id) (timestamp - max_age) ≡ some start_index
      → get_index_for_data_before (series o query_id) timestamp ≡ some end_index
      → get_multiple_values_before o query_id timestamp max_age max_count
        ≡ values_of o query_id (
            unwrap_or
              (collect_before
                (end_index + 2)
                (series o query_id)
                start_index
                end_index
                max_count
                0
                0
                [])
              [])
  unfolding get_multiple_values_before
  values_lem start_index end_index e e' = ground arith
