-- ===== src/Types/Convert.antt =====
-- The conversions at the end of src/types.rs: bytes to `U256`, and `U256` to a balance.
use tellor_pallet.Base.{ℕ, ◌+◌, ◌*◌, ◌≤◌, ◌≡◌, refl, Option, none, some, [], ◌∷◌, arith, ◌and_then◌}
use tellor_pallet.Base.Machine.{checked, saturate, u128_max, u256_max}
use tellor_pallet.Types.Records.{Bytes}

-- One round of the loop of `BytesToU256`.
unfoldable pub push_byte : Option ℕ → ℕ → Option ℕ
push_byte number i =
    (number and_then λ n. checked u256_max (n * 256)) and_then λ n. checked u256_max (n + i)

unfoldable pub read_bytes : Option ℕ → Bytes → Option ℕ
unfolding push_byte
read_bytes number [] = number
read_bytes number (i ∷ b) = read_bytes (push_byte number i) b

-- `BytesToU256::convert`.
unfoldable pub bytes_to_u256 : Bytes → Option ℕ
unfolding read_bytes
bytes_to_u256 b = read_bytes (some 0) b

-- `U256ToBalance::convert`, for a balance type whose greatest value is given.
abbrev pub u256_to_balance : ℕ → ℕ → ℕ
u256_to_balance balance_max a = saturate balance_max (saturate u128_max a)

-- The number that the bytes write in base 256, the most significant first, after a prefix.
abbrev pub big_endian : ℕ → Bytes → ℕ
big_endian acc [] = acc
big_endian acc (i ∷ b) = big_endian (acc * 256 + i) b

le-big_endian : (acc : ℕ) (b : Bytes) → acc ≤ big_endian acc b
le-big_endian acc [] = omega arith
le-big_endian acc (i ∷ b) = omega (arith, le-big_endian (acc * 256 + i) b)

read_bytes-none : (b : Bytes) → read_bytes none b ≡ none
unfolding read_bytes
read_bytes-none [] = refl
read_bytes-none (i ∷ b) = read_bytes-none b

read_bytes-big_endian :
    (acc : ℕ) (b : Bytes)
    → acc ≤ u256_max
    → read_bytes (some acc) b ≡ checked u256_max (big_endian acc b)
unfolding read_bytes
read_bytes-big_endian acc [] h = ground arith
read_bytes-big_endian acc (i ∷ b) h = ground (
  arith,
  read_bytes-none b,
  read_bytes-big_endian (acc * 256 + i) b,
  le-big_endian (acc * 256 + i) b,
)

-- The conversion of bytes reads them as a big-endian number, and fails exactly where that number
-- does not fit 256 bits.
pub bytes_to_u256-big_endian : (b : Bytes) → bytes_to_u256 b ≡ checked u256_max (big_endian 0 b)
unfolding bytes_to_u256
bytes_to_u256-big_endian b = read_bytes-big_endian 0 b (omega arith)
