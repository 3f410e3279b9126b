-- ===== src/Prelude/Bits.antt =====
-- `&` with a mask of low bits, as a remainder, and one bit of a word.
use Prim.Native.Nat.{digits, bit_and-bitwise}
use native.Mathlib.Nat.{
  mul_assoc, pow-succ', one-le-pow, mod-lt, div-add-mod, add-mul-mod_self_left, mod-eq_of_lt,
}
use tpt_teleop.Prelude.{Bool, true, ◌==◌, if◌then◌else◌}
use tpt_teleop.Prelude.{
  ℕ, zero, suc, ◌+◌, ◌-◌, ◌*◌, ◌/◌, ◌%◌, ◌^◌, ◌≤◌, ◌<◌, min, bit_and, ◌≡◌, ◌∙◌, ap, ap₂, arith,
}

-- The remainder by `2 ^ (k + 1)`, digit by digit.
mod_digit : (a m : ℕ) → 0 < m → a % (2 * m) ≡ a / 2 % m * 2 + a % 2
mod_digit a m h =
    ap (λ (t : ℕ). t % (2 * m)) (omega (arith, div-add-mod (a / 2) m, mul_assoc 2 m (a / 2 / m)))
    ∙ add-mul-mod_self_left (a / 2 % m * 2 + a % 2) (2 * m) (a / 2 / m)
    ∙ mod-eq_of_lt (omega (arith, mod-lt (a / 2) h))

-- A mask of `k + 1` ones is a mask of `k` ones and one more.
mask_halves : (m : ℕ) → 0 < m → ((2 * m - 1) / 2 ≡ m - 1) × ((2 * m - 1) % 2 ≡ 1)
mask_halves m h = (omega arith, omega arith)

-- The native operation takes the two numbers' binary digits together, `n` of them at most. With a
-- mask on the right those that it keeps make up the remainder.
masked : (n k a : ℕ) → a ≤ n → digits (λ b. zero) min n a (2 ^ k - 1) ≡ a % 2 ^ k
masked zero k zero h = omega arith
masked zero k (suc a) h = absurd (omega arith)
masked (suc n) k zero h = omega arith
masked (suc n) zero (suc a) h = omega (arith, masked n 0 (suc a / 2) (omega arith))
masked (suc n) (suc k) (suc a) h =
    let one : 0 < 2 ^ k = one-le-pow k 2 (omega arith) in
    let (half, last) = mask_halves (2 ^ k) one in
    rw (pow-succ' 2 k) (
      ap₂ (λ s t. digits (λ b. zero) min n (suc a / 2) s * 2 + min (suc a % 2) t) half last
      ∙ omega (arith, masked n k (suc a / 2) (omega arith), mod_digit (suc a) (2 ^ k) one))

-- `a & (2^k - 1)` is `a mod 2^k`, at every width.
pub bit_and_mask : (k a : ℕ) → bit_and a (2 ^ k - 1) ≡ a % 2 ^ k
bit_and_mask k a = bit_and-bitwise a (2 ^ k - 1) ∙ masked a k a (omega arith)

-- `(w >> i) & 1 != 0`, `w & (1 << i) != 0` and `w | (1 << i)`, digit by digit.
unfoldable pub test_bit : ℕ → ℕ → Bool
test_bit w zero = w % 2 == 1
test_bit w (suc i) = test_bit (w / 2) i

unfoldable pub set_bit : ℕ → ℕ → ℕ
set_bit w zero = w / 2 * 2 + 1
set_bit w (suc i) = set_bit (w / 2) i * 2 + w % 2

-- A bit that is set is seen, and no other changes.
pub test_bit-set_bit :
    (i j w : ℕ) → test_bit (set_bit w i) j ≡ (if i == j then true else test_bit w j)
unfolding test_bit set_bit
test_bit-set_bit zero zero w = ground arith
test_bit-set_bit zero (suc j) w =
    let e : (w / 2 * 2 + 1) / 2 ≡ w / 2 = omega arith in rw e (ground arith)
test_bit-set_bit (suc i) zero w = ground arith
test_bit-set_bit (suc i) (suc j) w =
    let e : (set_bit (w / 2) i * 2 + w % 2) / 2 ≡ set_bit (w / 2) i = omega arith in
    rw e (ground (arith, test_bit-set_bit i j (w / 2)))

pub set_bit-lt : (n i w : ℕ) → w < 2 ^ n → i < n → set_bit w i < 2 ^ n
unfolding set_bit
set_bit-lt zero i w h k = absurd (omega arith)
set_bit-lt (suc n) zero w h k = rw (pow-succ' 2 n) (omega (arith, pow-succ' 2 n))
set_bit-lt (suc n) (suc i) w h k = rw (pow-succ' 2 n) (
    omega
      (arith, pow-succ' 2 n, set_bit-lt n i (w / 2) (omega (arith, pow-succ' 2 n)) (omega arith)))
