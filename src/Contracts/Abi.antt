-- ===== src/Contracts/Abi.antt =====
-- The tokens of `ethabi` that the pallet builds. A hash or an address is the number it writes.
use tellor_pallet.Base.{ℕ}
use tellor_pallet.Types.{Bytes}

mutual
  pub data Token : Type 0 where
    fixed_bytes : ℕ → Token
    uint : ℕ → Token
    bytes : Bytes → Token
    address : ℕ → Token
    tuple : Tokens → Token
    array : Tokens → Token

  pub data Tokens : Type 0 where
    end : Tokens
    token : Token → Tokens → Tokens
