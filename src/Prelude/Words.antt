-- ===== src/Prelude/Words.antt =====
-- Unsigned machine words as native numbers below their modulus, and Rust's operations on them.
use tpt_teleop.Prelude.{ℕ, ◌+◌, ◌-◌, ◌%◌, ◌^◌, ◌<◌, ◌≡◌, arith, min}

abbrev pub u8_mod : ℕ
u8_mod = 2 ^ 8

abbrev pub u16_mod : ℕ
u16_mod = 2 ^ 16

abbrev pub u32_mod : ℕ
u32_mod = 2 ^ 32

-- `u64`, and `usize` on the 64-bit targets that the workspace builds for.
abbrev pub u64_mod : ℕ
u64_mod = 2 ^ 64

-- `a.wrapping_add(b)` and `a.wrapping_sub(b)` of `u32` and of `u64`.
abbrev pub wrapping_add_32 : ℕ → ℕ → ℕ
wrapping_add_32 a b = (a + b) % u32_mod

abbrev pub wrapping_sub_32 : ℕ → ℕ → ℕ
wrapping_sub_32 a b = (a + u32_mod - b) % u32_mod

abbrev pub wrapping_add_64 : ℕ → ℕ → ℕ
wrapping_add_64 a b = (a + b) % u64_mod

abbrev pub wrapping_sub_64 : ℕ → ℕ → ℕ
wrapping_sub_64 a b = (a + u64_mod - b) % u64_mod

-- `a.saturating_mul(b)` takes the product; this is the bound that it stops at, and that of
-- `saturating_add`. (`saturating_sub` is `-` on ℕ.)
abbrev pub saturate_64 : ℕ → ℕ
saturate_64 n = min n (u64_mod - 1)

-- The distance from `a` to a word `k` further on is `k`, past the wrap too.
pub wrapping_sub-wrapping_add_32 :
    (a k : ℕ) → a < u32_mod → k < u32_mod → wrapping_sub_32 (wrapping_add_32 a k) a ≡ k
wrapping_sub-wrapping_add_32 a k ha hk = omega arith

pub wrapping_sub-wrapping_add_64 :
    (a k : ℕ) → a < u64_mod → k < u64_mod → wrapping_sub_64 (wrapping_add_64 a k) a ≡ k
wrapping_sub-wrapping_add_64 a k ha hk = omega arith
