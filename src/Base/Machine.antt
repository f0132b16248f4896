-- ===== src/Base/Machine.antt =====
-- The checked, saturating and wrapping operations of Rust's unsigned integers. A value is a plain
-- number; its width is given by its greatest value.
use tellor_pallet.Base.Tests.{leb, if◌then◌else◌, ◌==◌}
use Prim.Native.Nat.{ℕ, ◌+◌, ◌-◌, ◌/◌, ◌%◌, ◌≤◌}
use mathlib.Core.Option.{Option, none, some}
use native.Mathlib.Omega.{arith}

abbrev pub u8_max : ℕ
u8_max = 0xff

abbrev pub u32_max : ℕ
u32_max = 0xffff_ffff

abbrev pub u64_max : ℕ
u64_max = 0xffff_ffff_ffff_ffff

abbrev pub u128_max : ℕ
u128_max = 0xffff_ffff_ffff_ffff_ffff_ffff_ffff_ffff

abbrev pub u256_max : ℕ
u256_max = 0xffff_ffff_ffff_ffff_ffff_ffff_ffff_ffff_ffff_ffff_ffff_ffff_ffff_ffff_ffff_ffff

-- A result that fits, or none.
abbrev pub checked : ℕ → ℕ → Option ℕ
checked max n = if leb n max then some n else none

abbrev pub checked_sub : ℕ → ℕ → Option ℕ
checked_sub a b = if leb b a then some (a - b) else none

abbrev pub checked_div : ℕ → ℕ → Option ℕ
checked_div a b = if b == 0 then none else some (a / b)

-- The greatest value in place of a result that does not fit.
abbrev pub saturate : ℕ → ℕ → ℕ
saturate max n = if leb n max then n else max

abbrev pub saturating_add : ℕ → ℕ → ℕ → ℕ
saturating_add max a b = saturate max (a + b)

abbrev pub saturating_inc : ℕ → ℕ → ℕ
saturating_inc max a = saturate max (a + 1)

abbrev pub wrapping_add : ℕ → ℕ → ℕ → ℕ
wrapping_add max a b = (a + b) % (max + 1)

-- The difference wraps round below zero.
abbrev pub wrapping_sub : ℕ → ℕ → ℕ → ℕ
wrapping_sub max a b = (a + (max + 1) - b) % (max + 1)

pub saturate-le : (max n : ℕ) → saturate max n ≤ n
saturate-le max n = ground arith
