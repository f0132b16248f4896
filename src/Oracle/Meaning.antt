-- ===== src/Oracle/Meaning.antt =====
-- What the reference scans find, in terms of the series alone.
use tellor_pallet.Base.{
  ℕ, zero, suc, ◌+◌, ◌≤◌, ◌<◌, ◌≡◌, List, [], ◌∷◌, Bool, true, false, Option, none, some, ltb,
  arith, inl, inr, Bool-cases, Option-cases, eq_cases, not, ◌&&◌, if◌then◌else◌,
}
use tellor_pallet.Types.{Bytes}
use tellor_pallet.Oracle.Series.{Series, is_in_dispute, last_index_before}
use tellor_pallet.Oracle.After.Scan.{first_index_after}

-- The last report before the time that is not disputed, of those below an index.
pub record IsLastBefore (timestamps : ℕ → Option ℕ) (disputed : ℕ → Bool) (timestamp n i t : ℕ)
    : Type 0 where
  pub below : i < n
  pub listed : timestamps i ≡ some t
  pub older : t < timestamp
  pub stands : disputed t ≡ false
  pub latest : (j u : ℕ) → i < j → j < n → timestamps j ≡ some u → u < timestamp → disputed u ≡ true

-- The first report after the time that is not disputed, of those from an index on.
pub record IsFirstAfter (timestamps : ℕ → Option ℕ) (disputed : ℕ → Bool) (timestamp k i t : ℕ)
    : Type 0 where
  pub above : k ≤ i
  pub listed : timestamps i ≡ some t
  pub later : timestamp < t
  pub stands : disputed t ≡ false
  pub earliest :
      (j u : ℕ) → k ≤ j → j < i → timestamps j ≡ some u → timestamp < u → disputed u ≡ true

-- The times after a bound and before a time whose reports are not disputed, of those below an
-- index, the newest first.
abbrev pub times_within : (ℕ → Option ℕ) → (ℕ → Bool) → ℕ → ℕ → ℕ → List ℕ
times_within timestamps disputed bound timestamp zero = []
times_within timestamps disputed bound timestamp (suc k) =
    let rest = times_within timestamps disputed bound timestamp k in
    elim (timestamps k) [
      | none ↦ rest
      | some t ↦ if ltb bound t && (ltb t timestamp && not (disputed t)) then t ∷ rest else rest
    ]

-- The data of the times that have some, each with its time.
abbrev pub with_data : (ℕ → Option Bytes) → List ℕ → List (Bytes × ℕ)
with_data data_of [] = []
with_data data_of (t ∷ ts) =
    let rest = with_data data_of ts in
    elim (data_of t) [ none ↦ rest | some value ↦ (value, t) ∷ rest ]

pub last_index_before-IsLastBefore :
    (s : Series) (timestamp n i : ℕ)
    → last_index_before s timestamp n ≡ some i
    → (t : ℕ) × IsLastBefore s.timestamps (is_in_dispute s) timestamp n i t
unfolding last_index_before
last_index_before-IsLastBefore s timestamp zero i e = absurd (cc)
last_index_before-IsLastBefore s timestamp (suc n) i e = elim (Option-cases (s.timestamps n)) [
  | inl gone ↦
      let (t, x) =
        last_index_before-IsLastBefore s timestamp n i (rw (gone, last_index_before) at e) in
      (
        t,
        record {
          below = omega (arith, x.below);
          listed = x.listed;
          older = x.older;
          stands = x.stands;
          latest = λ j u lo hi eu lt. elim (eq_cases j n) [
            | inl same ↦ absurd (cc)
            | inr other ↦ x.latest j u lo (omega arith) eu lt
          ];
        },
      )
  | inr (w, ew) ↦ elim (Bool-cases (ltb w timestamp && not (is_in_dispute s w))) [
    | inl here ↦
        let same : i ≡ n = ground arith in
        (
          w,
          record {
            below = omega arith;
            listed = ground arith;
            older = ground arith;
            stands = ground arith;
            latest = λ j u lo hi eu lt. absurd (omega arith);
          },
        )
    | inr passed ↦
        let (t, x) = last_index_before-IsLastBefore s timestamp n i (ground arith) in
        (
          t,
          record {
            below = omega (arith, x.below);
            listed = x.listed;
            older = x.older;
            stands = x.stands;
            latest = λ j u lo hi eu lt. elim (eq_cases j n) [
              | inl same ↦ ground arith
              | inr other ↦ x.latest j u lo (omega arith) eu lt
            ];
          },
        )
  ]
]

pub first_index_after-IsFirstAfter :
    (s : Series) (timestamp n k i : ℕ)
    → first_index_after s timestamp n k ≡ some i
    → (t : ℕ) × IsFirstAfter s.timestamps (is_in_dispute s) timestamp k i t
unfolding first_index_after
first_index_after-IsFirstAfter s timestamp zero k i e = absurd (cc)
first_index_after-IsFirstAfter s timestamp (suc n) k i e = elim (Option-cases (s.timestamps k)) [
  | inl gone ↦
      let (t, x) =
        first_index_after-IsFirstAfter s timestamp n (k + 1) i
          (rw (gone, first_index_after) at e) in
      (
        t,
        record {
          above = omega (arith, x.above);
          listed = x.listed;
          later = x.later;
          stands = x.stands;
          earliest = λ j u lo hi eu lt. elim (eq_cases j k) [
            | inl same ↦ absurd (cc)
            | inr other ↦ x.earliest j u (omega arith) hi eu lt
          ];
        },
      )
  | inr (w, ew) ↦ elim (Bool-cases (ltb timestamp w && not (is_in_dispute s w))) [
    | inl here ↦
        let same : i ≡ k = ground arith in
        (
          w,
          record {
            above = omega arith;
            listed = ground arith;
            later = ground arith;
            stands = ground arith;
            earliest = λ j u lo hi eu lt. absurd (omega arith);
          },
        )
    | inr passed ↦
        let (t, x) = first_index_after-IsFirstAfter s timestamp n (k + 1) i (ground arith) in
        (
          t,
          record {
            above = omega (arith, x.above);
            listed = x.listed;
            later = x.later;
            stands = x.stands;
            earliest = λ j u lo hi eu lt. elim (eq_cases j k) [
              | inl same ↦ ground arith
              | inr other ↦ x.earliest j u (omega arith) hi eu lt
            ];
          },
        )
  ]
]

-- Where the scan finds none, every older report is disputed.
pub last_index_before-none :
    (s : Series) (timestamp n j u : ℕ)
    → last_index_before s timestamp n ≡ none
    → j < n
    → s.timestamps j ≡ some u
    → u < timestamp
    → is_in_dispute s u ≡ true
unfolding last_index_before
last_index_before-none s timestamp zero j u e lt eu old = absurd (omega arith)
last_index_before-none s timestamp (suc n) j u e lt eu old = elim (eq_cases j n) [
  | inl same ↦ ground arith
  | inr other ↦
      last_index_before-none s timestamp n j u
        (elim (Option-cases (s.timestamps n)) [
          | inl gone ↦ rw (gone, last_index_before) at e
          | inr (w, ew) ↦ ground arith
        ])
        (omega arith) eu old
]

-- Where the scan finds none, every later report is disputed.
pub first_index_after-none :
    (s : Series) (timestamp n k j u : ℕ)
    → first_index_after s timestamp n k ≡ none
    → k ≤ j
    → j < k + n
    → s.timestamps j ≡ some u
    → timestamp < u
    → is_in_dispute s u ≡ true
unfolding first_index_after
first_index_after-none s timestamp zero k j u e lo hi eu late = absurd (omega arith)
first_index_after-none s timestamp (suc n) k j u e lo hi eu late = elim (eq_cases j k) [
  | inl same ↦ ground arith
  | inr other ↦
      first_index_after-none s timestamp n (k + 1) j u
        (elim (Option-cases (s.timestamps k)) [
          | inl gone ↦ rw (gone, first_index_after) at e
          | inr (w, ew) ↦ ground arith
        ])
        (omega arith) (omega arith) eu late
]
