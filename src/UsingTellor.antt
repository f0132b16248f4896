-- ===== src/UsingTellor.antt =====
-- What other pallets read of the oracle: the `UsingTellor` trait of src/traits.rs, as a record of
-- its functions in one state of the chain, and the laws that the searches keep.
pub mod Pallet
pub mod Sample
use tellor_pallet.Base.{
  ℕ, ◌-◌, ◌≤◌, ◌<◌, ◌≡◌, Bool, true, Option, none, some, List, [], take, reverse_onto,
}
use tellor_pallet.Types.{Bytes}
use tellor_pallet.Oracle.Meaning.{IsLastBefore, IsFirstAfter, times_within, with_data}

pub record UsingTellor : Type 0 where
  pub bytes_to_uint : Bytes → Option ℕ
  pub get_data_after : ℕ → ℕ → Option (Bytes × ℕ)
  pub get_data_before : ℕ → ℕ → Option (Bytes × ℕ)
  pub get_index_for_data_after : ℕ → ℕ → Option ℕ
  pub get_index_for_data_before : ℕ → ℕ → Option ℕ
  pub get_multiple_values_before : ℕ → ℕ → ℕ → ℕ → List (Bytes × ℕ)
  pub get_new_value_count_by_query_id : ℕ → ℕ
  pub get_reporter_by_timestamp : ℕ → ℕ → Option ℕ
  pub get_timestamp_by_query_id_and_index : ℕ → ℕ → Option ℕ
  pub is_in_dispute : ℕ → ℕ → Bool
  pub now : ℕ
  pub retrieve_data : ℕ → ℕ → Option Bytes

-- The value at an index and a time is the last one older than a time.
abbrev pub LastBefore : UsingTellor → ℕ → ℕ → ℕ → ℕ → Type 0
LastBefore x query_id timestamp i t =
    IsLastBefore (x.get_timestamp_by_query_id_and_index query_id) (x.is_in_dispute query_id)
      timestamp (x.get_new_value_count_by_query_id query_id) i t

-- The value at an index and a time is the first one later than a time.
abbrev pub FirstAfter : UsingTellor → ℕ → ℕ → ℕ → ℕ → Type 0
FirstAfter x query_id timestamp i t =
    IsFirstAfter (x.get_timestamp_by_query_id_and_index query_id) (x.is_in_dispute query_id)
      timestamp 0 i t

-- The laws of the trait: the searches find the last value before a time and the first one after
-- it, of those that are not disputed, and fail only where all are; the data of that value are found,
-- and no others; several values are those of the newest times of the period that are not disputed,
-- as many times as asked for, from the oldest to the newest.
pub record IsUsingTellor (x : UsingTellor) : Type 0 where
  pub index_before :
      (query_id timestamp i : ℕ)
      → x.get_index_for_data_before query_id timestamp ≡ some i
      → (t : ℕ) × LastBefore x query_id timestamp i t
  pub no_index_before :
      (query_id timestamp j u : ℕ)
      → x.get_index_for_data_before query_id timestamp ≡ none
      → x.get_timestamp_by_query_id_and_index query_id j ≡ some u
      → u < timestamp
      → x.is_in_dispute query_id u ≡ true
  pub index_after :
      (query_id timestamp i : ℕ)
      → x.get_index_for_data_after query_id timestamp ≡ some i
      → (t : ℕ) × FirstAfter x query_id timestamp i t
  pub no_index_after :
      (query_id timestamp j u : ℕ)
      → x.get_index_for_data_after query_id timestamp ≡ none
      → x.get_timestamp_by_query_id_and_index query_id j ≡ some u
      → timestamp < u
      → x.is_in_dispute query_id u ≡ true
  pub data_before :
      (query_id timestamp t : ℕ) (value : Bytes)
      → x.get_data_before query_id timestamp ≡ some (value, t)
      → ((i : ℕ) × LastBefore x query_id timestamp i t) × (x.retrieve_data query_id t ≡ some value)
  pub data_after :
      (query_id timestamp t : ℕ) (value : Bytes)
      → x.get_data_after query_id timestamp ≡ some (value, t)
      → ((i : ℕ) × FirstAfter x query_id timestamp i t) × (x.retrieve_data query_id t ≡ some value)
  pub data_before_of :
      (query_id timestamp i t : ℕ) (value : Bytes)
      → LastBefore x query_id timestamp i t
      → x.retrieve_data query_id t ≡ some value
      → x.get_data_before query_id timestamp ≡ some (value, t)
  pub data_after_of :
      (query_id timestamp i t : ℕ) (value : Bytes)
      → FirstAfter x query_id timestamp i t
      → x.retrieve_data query_id t ≡ some value
      → x.get_data_after query_id timestamp ≡ some (value, t)
  pub values_before :
      (query_id timestamp max_age max_count : ℕ)
      → x.get_multiple_values_before query_id timestamp max_age max_count
        ≡ with_data (x.retrieve_data query_id) (
            reverse_onto
              (take max_count (
                times_within
                  (x.get_timestamp_by_query_id_and_index query_id)
                  (x.is_in_dispute query_id)
                  (timestamp - max_age)
                  timestamp
                  (x.get_new_value_count_by_query_id query_id)))
              [])
