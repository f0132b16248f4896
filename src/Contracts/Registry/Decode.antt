-- ===== src/Contracts/Registry/Decode.antt =====
-- The bytes of a junction can be read back: `encode_junction` of src/contracts/registry.rs.
use native.Mathlib.Nat.{pow-suc, div-add-mod', div-lt_iff_lt-mul}
use tellor_pallet.Base.{
  ℕ, zero, suc, ◌+◌, ◌*◌, ◌/◌, ◌%◌, ◌^◌, ◌<◌, ◌≡◌, refl, ap, ◌∙◌, Option, none, some, List, [], ◌∷◌,
  ◌++◌, arith, ◌==◌, if◌then◌else◌, ◌and_then◌, length, length-append, take,
}
use tellor_pallet.Types.{Bytes}
use tellor_pallet.Types.Convert.{big_endian}
use tellor_pallet.Contracts.Registry.{
  NetworkId, by_genesis, by_fork, polkadot, kusama, westend, rococo, wococo, ethereum, bitcoin_core,
  bitcoin_cash, Junction, parachain, account_id32, account_index64, account_key20, pallet_instance,
  general_index, general_key, only_child, global_consensus, to_be_bytes, encode_network_id,
  encode_junction,
}

big_endian-snoc :
    (acc b : ℕ) (xs : Bytes) → big_endian acc (xs ++ (b ∷ [])) ≡ big_endian acc xs * 256 + b
big_endian-snoc acc b [] = refl
big_endian-snoc acc b (x ∷ xs) = big_endian-snoc (acc * 256 + x) b xs

-- An integer that fits the bytes is read back.
pub big_endian-to_be_bytes : (w n : ℕ) → n < 256 ^ w → big_endian 0 (to_be_bytes w n) ≡ n
unfolding to_be_bytes
big_endian-to_be_bytes zero n h = omega arith
big_endian-to_be_bytes (suc w) n h =
    big_endian-snoc 0 (n % 256) (to_be_bytes w (n / 256))
    ∙ ap (λ q. q * 256 + n % 256)
        (big_endian-to_be_bytes w (n / 256)
          ((div-lt_iff_lt-mul (omega arith)).1 (omega (arith, pow-suc 256 w))))
    ∙ div-add-mod' n 256

length-to_be_bytes : (w n : ℕ) → length (to_be_bytes w n) ≡ w
unfolding to_be_bytes
length-to_be_bytes zero n = refl
length-to_be_bytes (suc w) n = omega (
  arith,
  length-append (to_be_bytes w (n / 256)) ((n % 256) ∷ []),
  length-to_be_bytes w (n / 256),
)

abbrev drop {ℓ} : {A : Type ℓ} → ℕ → List A → List A
drop zero xs = xs
drop (suc n) [] = []
drop (suc n) (x ∷ xs) = drop n xs

take-append : (n : ℕ) (xs ys : Bytes) → length xs ≡ n → take n (xs ++ ys) ≡ xs
take-append zero [] ys h = refl
take-append zero (x ∷ xs) ys h = absurd (omega (arith, h))
take-append (suc n) [] ys h = absurd (omega (arith, h))
take-append (suc n) (x ∷ xs) ys h = ap (λ zs. x ∷ zs) (take-append n xs ys (omega (arith, h)))

drop-append : (n : ℕ) (xs ys : Bytes) → length xs ≡ n → drop n (xs ++ ys) ≡ ys
drop-append zero [] ys h = refl
drop-append zero (x ∷ xs) ys h = absurd (omega (arith, h))
drop-append (suc n) [] ys h = absurd (omega (arith, h))
drop-append (suc n) (x ∷ xs) ys h = drop-append n xs ys (omega (arith, h))

-- The reader of a network.
abbrev pub decode_network_id : Bytes → Option (Option NetworkId)
decode_network_id [] = none
decode_network_id (tag ∷ b) =
    if tag == 0
    then some none
    else if tag == 1
    then some (some (by_genesis b))
    else if tag == 2
    then some (some polkadot)
    else if tag == 3
    then some (some kusama)
    else if tag == 4
    then some (some (by_fork (big_endian 0 (take 8 (drop 1 b))) (drop 9 b)))
    else if tag == 5
    then some (some westend)
    else if tag == 6
    then some (some rococo)
    else if tag == 7
    then some (some wococo)
    else if tag == 8
    then some (some (ethereum (big_endian 0 (drop 1 b))))
    else if tag == 9
    then some (some bitcoin_core)
    else if tag == 10
    then some (some bitcoin_cash)
    else none

-- The integers of a network fit their bytes.
abbrev pub NetworkFits : Option NetworkId → Type 0
NetworkFits none = Unit {0}
NetworkFits (some (by_fork number hash)) = number < 256 ^ 8
NetworkFits (some (ethereum chain_id)) = chain_id < 256 ^ 8
NetworkFits (some network) = Unit {0}

decode-encode_network_id :
    (network : Option NetworkId)
    → NetworkFits network
    → decode_network_id (encode_network_id network) ≡ some network
unfolding encode_network_id
decode-encode_network_id none h = refl
decode-encode_network_id (some (by_genesis id)) h = refl
decode-encode_network_id (some polkadot) h = refl
decode-encode_network_id (some kusama) h = refl
decode-encode_network_id (some (by_fork number hash)) h =
    ap (λ n. some (some (by_fork n hash))) (big_endian-to_be_bytes 8 number h)
decode-encode_network_id (some westend) h = refl
decode-encode_network_id (some rococo) h = refl
decode-encode_network_id (some wococo) h = refl
decode-encode_network_id (some (ethereum chain_id)) h =
    ap (λ n. some (some (ethereum n))) (big_endian-to_be_bytes 8 chain_id h)
decode-encode_network_id (some bitcoin_core) h = refl
decode-encode_network_id (some bitcoin_cash) h = refl

module _ (scale : Option NetworkId → Bytes) (unscale : Bytes → Option (Option NetworkId)) where
  -- The reader of a junction; one of the cases takes the network from the SCALE encoding.
  abbrev pub decode_junction : Bytes → Option Junction
  decode_junction [] = none
  decode_junction (tag ∷ b) =
      if tag == 0
      then some (parachain (big_endian 0 b))
      else if tag == 1
      then (decode_network_id (drop 32 b) and_then λ network.
          some (account_id32 network (take 32 b)))
      else if tag == 2
      then (decode_network_id (drop 8 b) and_then λ network.
          some (account_index64 network (big_endian 0 (take 8 b))))
      else if tag == 3
      then (unscale (drop 20 b) and_then λ network. some (account_key20 network (take 20 b)))
      else if tag == 4
      then some (pallet_instance (big_endian 0 b))
      else if tag == 5
      then some (general_index (big_endian 0 b))
      else if tag == 6
      then some (general_key (big_endian 0 (take 1 b)) (drop 1 b))
      else if tag == 7
      then some only_child
      else if tag == 9
      then (decode_network_id b and_then λ network.
          network and_then λ id. some (global_consensus id))
      else none

  -- The integers of a junction fit their types, and its identifiers have their lengths.
  abbrev pub JunctionFits : Junction → Type 0
  JunctionFits (parachain para_id) = para_id < 256 ^ 4
  JunctionFits (account_id32 network id) = (length id ≡ 32) × NetworkFits network
  JunctionFits (account_index64 network index) = (index < 256 ^ 8) × NetworkFits network
  JunctionFits (account_key20 network key) = length key ≡ 20
  JunctionFits (pallet_instance i) = i < 256 ^ 1
  JunctionFits (general_index i) = i < 256 ^ 16
  JunctionFits (general_key size contents) = Unit {0}
  JunctionFits only_child = Unit {0}
  JunctionFits (global_consensus network) = NetworkFits (some network)

  -- The bytes of a junction, whose integers fit their types and whose identifiers have their
  -- lengths, are read back as that junction, if the SCALE encoding of networks can be read back.
  pub decode-encode_junction :
      (j : Junction)
      → ((network : Option NetworkId) → unscale (scale network) ≡ some network)
      → JunctionFits j
      → decode_junction (encode_junction scale j) ≡ some j
  unfolding encode_junction
  decode-encode_junction (parachain para_id) law h =
      ap (λ n. some (parachain n)) (big_endian-to_be_bytes 4 para_id h)
  decode-encode_junction (account_id32 network id) law (size, h) =
      rw
        (
          drop-append 32 id (encode_network_id network) size,
          take-append 32 id (encode_network_id network) size,
          decode-encode_network_id network h,
        )
        refl
  decode-encode_junction (account_index64 network index) law (small, h) =
      let bytes_of = to_be_bytes 8 index in
      let network_of = encode_network_id network in
      ap
        (λ (o : Option (Option NetworkId)).
          o and_then λ n. some (account_index64 n (big_endian 0 (take 8 (bytes_of ++ network_of)))))
        (decode-encode_network_id network h)
      ∙ ap (λ n. some (account_index64 network n))
          (ap (big_endian 0) (take-append 8 bytes_of network_of (length-to_be_bytes 8 index))
            ∙ big_endian-to_be_bytes 8 index small)
  decode-encode_junction (account_key20 network key) law h =
      rw (drop-append 20 key (scale network) h, take-append 20 key (scale network) h, law network)
        refl
  decode-encode_junction (pallet_instance i) law h =
      ap (λ n. some (pallet_instance n)) (big_endian-to_be_bytes 1 i h)
  decode-encode_junction (general_index i) law h =
      ap (λ n. some (general_index n)) (big_endian-to_be_bytes 16 i h)
  decode-encode_junction (general_key size contents) law h =
      let byte : 0 + size ≡ size = omega arith in ap (λ n. some (general_key n contents)) byte
  decode-encode_junction only_child law h = refl
  decode-encode_junction (global_consensus network) law h =
      ap
        (λ (o : Option (Option NetworkId)).
          o and_then λ network. network and_then λ id. some (global_consensus id))
        (decode-encode_network_id (some network) h)
