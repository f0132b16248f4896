-- ===== src/Oracle/Invariant.antt =====
-- The invariant of the oracle's storage, and how the reference scans depend on it.
use mathlib.Core.Path.{fun_ext}
use tellor_pallet.Base.{
  ℕ, zero, suc, ◌≤◌, ◌<◌, ◌≡◌, refl, none, some, arith, Option-cases, inl, inr, if◌then◌else◌,
  Bool-cases, ltb, ltb→lt,
}
use tellor_pallet.State.{Oracle}
use tellor_pallet.Oracle.Series.{Series, series, IsSeries, last_undisputed, is_in_dispute}

-- Each query identifier holds a well-formed series, of which no report is later than the clock.
pub record IsOracle (o : Oracle) (now : ℕ) : Type 0 where
  pub ordered : (query_id : ℕ) → IsSeries (series o query_id)
  pub clock : (query_id i t : ℕ) → o.reported_timestamps_by_index query_id i ≡ some t → t ≤ now

-- The last undisputed report below an index rests on the reports below it.
pub last_undisputed-cong :
    (s s' : Series) (n : ℕ)
    → ((i : ℕ) → i < n → s'.timestamps i ≡ s.timestamps i)
    → ((i t : ℕ) → i < n → s.timestamps i ≡ some t → is_in_dispute s' t ≡ is_in_dispute s t)
    → last_undisputed s' n ≡ last_undisputed s n
unfolding last_undisputed
last_undisputed-cong s s' zero times disputes = refl
last_undisputed-cong s s' (suc i) times disputes =
    let rest =
      last_undisputed-cong s s' i (λ j lt. times j (omega arith))
        (λ j t lt. disputes j t (omega arith)) in
    elim (Option-cases (s.timestamps i)) [
      | inl gone ↦ ground (arith, rest, times i (omega arith))
      | inr (t, e) ↦ ground (arith, rest, times i (omega arith), disputes i t (omega arith) e)
    ]

-- A series that reads the same everywhere is the same.
pub series-eq :
    (s s' : Series)
    → s'.last_reported_timestamp ≡ s.last_reported_timestamp
    → ((t : ℕ) → s'.reports t ≡ s.reports t)
    → ((i : ℕ) → s'.timestamps i ≡ s.timestamps i)
    → s'.count ≡ s.count
    → s' ≡ s
series-eq s s' last reports times count = λ i. record {
  last_reported_timestamp = last i;
  reports = fun_ext reports i;
  timestamps = fun_ext times i;
  count = count i;
}

-- Only an index below the count has a time.
pub index_lt_count : (s : Series) → IsSeries s → (i t : ℕ) → s.timestamps i ≡ some t → i < s.count
index_lt_count s v i t e = elim (Bool-cases (ltb i s.count)) [
  | inl below ↦ ltb→lt i s.count below
  | inr ge ↦ let gone = v.unlisted i (ground arith) in absurd (cc)
]

-- One step of the scan for the last undisputed report.
pub last_undisputed-suc :
    (s : Series) (i u : ℕ)
    → s.timestamps i ≡ some u
    → last_undisputed s (suc i) ≡ (if is_in_dispute s u then last_undisputed s i else some u)
unfolding last_undisputed
last_undisputed-suc s i u e = rw (e, last_undisputed)

-- An index has one time.
pub same_time :
    (s : Series) (i j u w : ℕ) → s.timestamps i ≡ some u → s.timestamps j ≡ some w → i ≡ j → u ≡ w
same_time s i j u w e f h = cc

-- Where an index has no time, the series has ended.
pub count_le_index : (s : Series) → IsSeries s → (i : ℕ) → s.timestamps i ≡ none → s.count ≤ i
count_le_index s v i e = elim (Bool-cases (ltb i s.count)) [
  | inl below ↦ let (t, r, listed, _, _) = v.listed i (ltb→lt i s.count below) in absurd (cc)
  | inr ge ↦ ground arith
]
