-- ===== src/Safety/Floats.antt =====
-- The floating-point numbers of crates/tpt-t-safety/src: words of their bits. Their arithmetic and
-- comparisons, which IEEE 754 defines, are a parameter; the methods of the standard library are
-- written with them.
use tpt_teleop.Prelude.{ℕ, ◌+◌, ◌%◌, Bool, Option, none, some, if◌then◌else◌}
use tpt_teleop.Prelude.Words.{u32_mod}

-- The operations of one width. `le` is not the opposite of `lt`: both are false of a NaN.
pub record FloatOps : Type 0 where
  pub add : ℕ → ℕ → ℕ
  pub sub : ℕ → ℕ → ℕ
  pub mul : ℕ → ℕ → ℕ
  pub div : ℕ → ℕ → ℕ
  pub lt : ℕ → ℕ → Bool
  pub le : ℕ → ℕ → Bool
  pub eq : ℕ → ℕ → Bool
  pub of_u64 : ℕ → ℕ

pub record Floats : Type 0 where
  pub f32 : FloatOps
  pub f64 : FloatOps
  pub hypot : ℕ → ℕ → ℕ
  pub widen : ℕ → ℕ
  pub narrow : ℕ → ℕ

-- The sign is the highest of the 32 bits.
abbrev pub sign_bit : ℕ
sign_bit = 2147483648

unfoldable pub neg : ℕ → ℕ
neg x = (x + sign_bit) % u32_mod

unfoldable pub abs : ℕ → ℕ
abs x = x % sign_bit

module _ (ops : FloatOps) where
  -- `max` and `min` give the other argument when one is a NaN.
  unfoldable pub fmax : ℕ → ℕ → ℕ
  fmax a b = if ops.eq a a then (if ops.lt a b then b else a) else b

  unfoldable pub fmin : ℕ → ℕ → ℕ
  fmin a b = if ops.eq a a then (if ops.lt b a then b else a) else b

  -- `clamp` where the bounds are in order.
  unfoldable pub clamp : ℕ → ℕ → ℕ → ℕ
  clamp x lo hi = if ops.lt x lo then lo else if ops.lt hi x then hi else x

  -- `clamp`, which panics when the bounds are not in order, or are no numbers.
  unfoldable pub clamp_checked : ℕ → ℕ → ℕ → Option ℕ
  unfolding clamp
  clamp_checked x lo hi = if ops.le lo hi then some (clamp x lo hi) else none

-- Constants as 32-bit floats.
abbrev pub one : ℕ
one = 1065353216

abbrev pub half : ℕ
half = 1056964608

abbrev pub hundredth : ℕ
hundredth = 1008981770

abbrev pub thousandth : ℕ
thousandth = 981668463

abbrev pub millionth : ℕ
millionth = 897988541

abbrev pub million : ℕ
million = 1232348160
