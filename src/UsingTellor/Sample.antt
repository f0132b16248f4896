-- ===== src/UsingTellor/Sample.antt =====
-- The sample pallet of using-tellor/src/lib.rs, over any implementation of `UsingTellor`.
use tellor_pallet.Base.{
  ℕ, ◌+◌, ◌-◌, ◌*◌, ◌<◌, ◌≡◌, ◌≢◌, Bool, Option, none, some, List, ◌∷◌, ◌and_then◌, if◌then◌else◌,
  ltb, set, arith, ◌⊎◌, inl, inr, Option-cases, Bool-cases,
}
use tellor_pallet.Base.Machine.{saturate, u256_max}
use tellor_pallet.Types.{Bytes, Origin}
use tellor_pallet.Constants.{minutes, hours}
use tellor_pallet.UsingTellor.{UsingTellor, IsUsingTellor, LastBefore}

-- `Event`.
pub data SampleEvent : Type 0 where
  configured : ℕ → SampleEvent
  value_stored : ℕ → ℕ → SampleEvent

-- The storage, and the events, the newest first.
pub record Sample : Type 0 where
  pub configuration : Option ℕ
  pub values : ℕ → Option ℕ
  pub events : List SampleEvent

-- `DispatchResult`; `not_configured` is the one error of the pallet.
pub data Outcome : Type 0 where
  done : Sample → Outcome
  not_configured bad_origin : Outcome

-- `configure`; the test of the configuring origin is the runtime's.
unfoldable pub configure : (Origin → Bool) → Origin → ℕ → Sample → Outcome
configure configure_origin origin query_id s =
    if configure_origin origin
    then done (record s { configuration = some query_id; events = configured query_id ∷ s.events })
    else bad_origin

abbrev pub fifteen_minutes : ℕ
fifteen_minutes = 15 * minutes

abbrev pub one_day : ℕ
one_day = 24 * hours

-- `get_price`.
unfoldable pub get_price : UsingTellor → ℕ → Option ℕ
get_price x query_id = x.get_data_before query_id (x.now - fifteen_minutes) and_then λ found.
    if ltb (x.now - found.1) one_day then x.bytes_to_uint found.0 else none

-- What `do_something` does with a signer and a price.
abbrev pub store_value : ℕ → ℕ → Option ℕ → Sample → Sample
store_value who value none s = s
store_value who value (some price) s =
    let derived_value = saturate u256_max (price * value) in
    record s {
      values = set who (some derived_value) s.values;
      events = value_stored derived_value who ∷ s.events;
    }

-- `do_something`.
unfoldable pub do_something : UsingTellor → Origin → ℕ → Sample → Outcome
unfolding get_price
do_something x origin value s = elim origin [
  | Origin.signed who ↦ elim s.configuration [
    | none ↦ not_configured
    | some query_id ↦ done (store_value who value (get_price x query_id) s)
  ]
  | _ ↦ bad_origin
]

-- A price: the last value that is older than fifteen minutes and not disputed, less than a day old,
-- read as a number.
pub record IsPrice (x : UsingTellor) (query_id price i t : ℕ) (value : Bytes) : Type 0 where
  pub last : LastBefore x query_id (x.now - 15 * 60) i t
  pub old : t + 15 * 60 < x.now
  pub fresh : x.now < t + 24 * 60 * 60
  pub data_of : x.retrieve_data query_id t ≡ some value
  pub number : x.bytes_to_uint value ≡ some price

module _ (x : UsingTellor) (laws : IsUsingTellor x) where
  get_price-IsPrice :
      (query_id price : ℕ)
      → get_price x query_id ≡ some price
      → (i : ℕ) × (t : ℕ) × (value : Bytes) × IsPrice x query_id price i t value
  unfolding get_price
  get_price-IsPrice query_id price e =
      elim (Option-cases (x.get_data_before query_id (x.now - fifteen_minutes))) [
        | inl gone ↦ absurd (cc)
        | inr ((value, t), found) ↦
            let ((i, last), data_of) =
              laws.data_before query_id (x.now - fifteen_minutes) t value found in
            elim (Bool-cases (ltb (x.now - t) one_day)) [
              | inl fresh ↦ (
                i,
                t,
                value,
                record {
                  last = last;
                  old = omega (arith, last.older);
                  fresh = ground arith;
                  data_of = data_of;
                  number = ground arith;
                },
              )
              | inr old ↦ absurd (ground arith)
            ]
      ]

  -- Over any implementation that keeps the laws, a call that is done by a signer, of a pallet that
  -- is configured, either finds no price and changes nothing, or stores the price times the value,
  -- at most 2^256 - 1, for the signer alone: the price is the last value of the query identifier
  -- that is older than fifteen minutes and not disputed, and it is less than a day old.
  pub do_something-IsPrice :
      (who query_id value : ℕ) (s s' : Sample)
      → s.configuration ≡ some query_id
      → do_something x (Origin.signed who) value s ≡ done s'
      → ((get_price x query_id ≡ none) × (s' ≡ s))
        ⊎ ((price : ℕ) × (i : ℕ) × (t : ℕ) × (data_of : Bytes) × IsPrice x query_id price i t
              data_of
            × (s'.values who ≡ some (saturate u256_max (price * value)))
            × ((other : ℕ) → other ≢ who → s'.values other ≡ s.values other)
            × (s'.configuration ≡ s.configuration))
  unfolding do_something
  do_something-IsPrice who query_id value s s' is_configured e =
      elim (Option-cases (get_price x query_id)) [
        | inl nothing ↦ inl (nothing, ground arith)
        | inr (price, found) ↦
            let (i, t, data_of, p) = get_price-IsPrice query_id price found in
            let stored : s' ≡ store_value who value (some price) s = ground arith in
            inr (price, i, t, data_of, p, ground arith, λ other ne. ground arith, ground arith)
      ]
