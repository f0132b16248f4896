-- ===== src/Xcm/Origins.antt =====
-- Where a call comes from: the conversions of locations of src/xcm/mod.rs.
use native.Mathlib.Decide.{ℕ_discrete}
use tellor_pallet.Base.{ℕ, ◌^◌, ◌<◌, ◌≡◌, ◌≢◌, refl, sym, ap, ◌∙◌, [], ◌∷◌, arith}
use tellor_pallet.Types.{Origin}
use tellor_pallet.Types.Convert.{big_endian}
use tellor_pallet.Contracts.Registry.{
  NetworkId, Junction, MultiLocation, parachain, account_key20, to_be_bytes,
}
use tellor_pallet.Contracts.Registry.Decode.{big_endian-to_be_bytes}
use tellor_pallet.Config.{ContractLocation, OriginKind, sovereign_account}

-- `From<ContractLocation> for MultiLocation`; an address has 20 bytes.
abbrev pub multi_location : ContractLocation → MultiLocation
multi_location value = record {
  parents = 1;
  interior =
      parachain value.para_id ∷ account_key20 value.network (to_be_bytes 20 value.address) ∷ [];
}

NetworkId-discrete : Discrete NetworkId
NetworkId-discrete = hlevel (ℕ_discrete)

Junction-discrete : Discrete Junction
Junction-discrete = hlevel (ℕ_discrete, NetworkId-discrete)

pub MultiLocation-discrete : Discrete MultiLocation
MultiLocation-discrete = hlevel (ℕ_discrete, Junction-discrete)

-- The result of a conversion: `Ok` of what it yields, or `Err` of the location.
pub data Conversion (A : Type 0) : Type 0 where
  converted : A → Conversion A
  kept : MultiLocation → Conversion A

-- `LocationToAccount`: the location of the contract stands for the account.
unfoldable pub location_to_account : ContractLocation → ℕ → MultiLocation → Conversion ℕ
location_to_account contract account location =
    elim (MultiLocation-discrete location (multi_location contract)) [
      | yes same ↦ converted account
      | no other ↦ kept location
    ]

-- `LocationToOrigin`: for a sovereign account, the location of the contract stands for the origin.
unfoldable pub location_to_origin :
    ContractLocation → Origin → MultiLocation → OriginKind → Conversion Origin
location_to_origin contract pallet_origin origin sovereign_account =
    elim (MultiLocation-discrete origin (multi_location contract)) [
      | yes same ↦ converted pallet_origin
      | no other ↦ kept origin
    ]
location_to_origin contract pallet_origin origin _ = kept origin

-- The address of a location has 20 bytes.
abbrev pub AddressFits : ContractLocation → Type 0
AddressFits contract = contract.address < 256 ^ 20

-- Different contracts have different locations.
multi_location-injective :
    (a b : ContractLocation)
    → AddressFits a
    → AddressFits b
    → multi_location a ≡ multi_location b
    → a ≡ b
multi_location-injective a b fa fb e =
    let para : a.para_id ≡ b.para_id = cc in
    let net : a.network ≡ b.network = cc in
    let bytes_of : to_be_bytes 20 a.address ≡ to_be_bytes 20 b.address = cc in
    let number : a.address ≡ b.address =
      sym (big_endian-to_be_bytes 20 a.address fa)
      ∙ ap (big_endian 0) bytes_of
      ∙ big_endian-to_be_bytes 20 b.address fb in
    λ i. record { para_id = para i; address = number i; network = net i }

-- Of two different contracts whose addresses have 20 bytes: a location that is converted into the
-- origin of the one is the location of its sovereign account, and is kept as it is by the
-- conversion into the origin of the other.
pub location_to_origin-contract :
    (a b : ContractLocation) (oa ob o : Origin) (location : MultiLocation) (kind : OriginKind)
    → AddressFits a
    → AddressFits b
    → a ≢ b
    → location_to_origin a oa location kind ≡ converted o
    → (kind ≡ sovereign_account)
      × (location ≡ multi_location a)
      × (o ≡ oa)
      × (location_to_origin b ob location kind ≡ kept location)
unfolding location_to_origin
location_to_origin-contract a b oa ob o location sovereign_account fa fb apart e =
    elim (MultiLocation-discrete location (multi_location a)) [
      | no other ↦ absurd (ground arith)
      | yes same ↦ elim (MultiLocation-discrete location (multi_location b)) [
        | no other ↦ (refl, same, ground arith, ground arith)
        | yes both ↦ absurd (apart (multi_location-injective a b fa fb (sym same ∙ both)))
      ]
    ]
location_to_origin-contract a b oa ob o location OriginKind.native fa fb apart e = absurd (cc)
location_to_origin-contract a b oa ob o location OriginKind.superuser fa fb apart e = absurd (cc)
location_to_origin-contract a b oa ob o location OriginKind.xcm fa fb apart e = absurd (cc)
