-- ===== src/Prelude/PowTwo.antt =====
-- Rust's `usize::next_power_of_two`, by doubling, and what a power of two says of wrapped cursors.
use native.Mathlib.Nat.{
  add-zero, add-suc, pow-succ', div-add-mod, dvd_refl, dvd-mul_left_of_dvd, mod-mod_of_dvd,
  pow-le-pow_right,
}
use Prim.Native.Nat.{◌∣◌}
use tpt_teleop.Prelude.{
  ℕ, zero, suc, ◌+◌, ◌*◌, ◌-◌, ◌/◌, ◌%◌, ◌^◌, ◌≤◌, ◌<◌, ◌≡◌, ap, refl, arith, leb, if◌then◌else◌,
  dec_lt, Bool-cases, leb→le, false, subst, ◌⊎◌, inl, inr,
}

-- The exponent of the first power of two, from `2 ^ k` on, that reaches `n`.
unfoldable pub log2_ceil_from : ℕ → ℕ → ℕ → ℕ
log2_ceil_from zero k n = k
log2_ceil_from (suc fuel) k n =
    let next = log2_ceil_from fuel (suc k) n in if leb n (2 ^ k) then k else next

-- 64 doublings reach every `usize`.
unfoldable pub log2_ceil : ℕ → ℕ
unfolding log2_ceil_from
log2_ceil n = log2_ceil_from 64 0 n

-- A release build returns 0, and a debug build panics, where the result does not fit; the model
-- keeps the true power there.
abbrev pub next_power_of_two : ℕ → ℕ
next_power_of_two n = 2 ^ log2_ceil n

-- Enough fuel reaches `n`, and the exponent stays within the fuel.
pub log2_ceil_from_reaches : (fuel k n : ℕ) → n ≤ 2 ^ (k + fuel) → n ≤ 2 ^ log2_ceil_from fuel k n
unfolding log2_ceil_from
log2_ceil_from_reaches zero k n h = rw add-zero at h
log2_ceil_from_reaches (suc fuel) k n h = elim (Bool-cases (leb n (2 ^ k))) [
  | inl reached ↦ rw reached (leb→le n (2 ^ k) reached)
  | inr below ↦
      rw below
        (log2_ceil_from_reaches fuel (suc k) n (subst (λ (t : ℕ). n ≤ 2 ^ t) (omega arith) h))
]

one_more :
    (fuel k n : ℕ)
    → leb n (2 ^ k) ≡ false
    → (log2_ceil_from fuel (suc k) n ≡ suc k) ⊎ (2 ^ log2_ceil_from fuel (suc k) n < 2 * n)
    → 2 ^ log2_ceil_from fuel (suc k) n < 2 * n
one_more fuel k n b (inl e) = rw e (rw (pow-succ' 2 k) (ground arith))
one_more fuel k n b (inr h) = h

-- The power found is the least one: its half, if it was not the first tried, is below `n`.
pub log2_ceil_from_least :
    (fuel k n : ℕ) → (log2_ceil_from fuel k n ≡ k) ⊎ (2 ^ log2_ceil_from fuel k n < 2 * n)
unfolding log2_ceil_from
log2_ceil_from_least zero k n = inl refl
log2_ceil_from_least (suc fuel) k n = elim (Bool-cases (leb n (2 ^ k))) [
  | inl reached ↦ rw reached (inl refl)
  | inr below ↦ rw below (inr (one_more fuel k n below (log2_ceil_from_least fuel (suc k) n)))
]

pub log2_ceil-le : (fuel k n : ℕ) → log2_ceil_from fuel k n ≤ k + fuel
unfolding log2_ceil_from
log2_ceil-le zero k n = omega arith
log2_ceil-le (suc fuel) k n = ground (arith, log2_ceil-le fuel (suc k) n)

-- 64 doublings reach every `usize`, and the power found is the least that does.
pub next_power_of_two_lem :
    (n : ℕ)
    → n ≤ 2 ^ 64
    → (n ≤ next_power_of_two n) × ((next_power_of_two n ≡ 1) ⊎ (next_power_of_two n < 2 * n))
unfolding log2_ceil
next_power_of_two_lem n h = (log2_ceil_from_reaches 64 0 n h, least (log2_ceil_from_least 64 0 n))
  where
    least :
        (log2_ceil n ≡ 0) ⊎ (next_power_of_two n < 2 * n)
        → (next_power_of_two n ≡ 1) ⊎ (next_power_of_two n < 2 * n)
    least (inl e) = inl (ap (λ (t : ℕ). 2 ^ t) e)
    least (inr q) = inr q

-- Two numbers less than `m` apart that have one remainder by `m` are equal.
pub eq_of_mod_eq : (m a b : ℕ) → a % m ≡ b % m → a ≤ b → b < a + m → a ≡ b
eq_of_mod_eq m a b e h k = elim (dec_lt (a / m) (b / m)) [
  | yes p ↦ absurd (grind (arith, div-add-mod a m, div-add-mod b m))
  | no p ↦ grind (arith, div-add-mod a m, div-add-mod b m)
]

pow-dvd-pow : (k j : ℕ) → 2 ^ k ∣ 2 ^ (k + j)
pow-dvd-pow k zero = rw add-zero (dvd_refl _)
pow-dvd-pow k (suc j) =
    rw add-suc (rw (pow-succ' 2 (k + j)) (dvd-mul_left_of_dvd _ (pow-dvd-pow k j) 2))

-- A cursor that wraps at `2 ^ w` has the same place modulo `2 ^ k`.
pub mod-mod_pow : (k w n : ℕ) → k ≤ w → n % 2 ^ w % 2 ^ k ≡ n % 2 ^ k
mod-mod_pow k w n h =
    mod-mod_of_dvd (2 ^ k) n
      (subst (λ (t : ℕ). 2 ^ k ∣ 2 ^ t) (omega arith) (pow-dvd-pow k (w - k)))

pub pow_below_word : (k : ℕ) → k < 64 → 2 ^ k ≤ 2 ^ 63
pow_below_word k h = pow-le-pow_right {n = 2} (omega arith) {i = k} {j = 63} (omega arith)

-- The exponent found for a number up to `2 ^ 63` is that of a word.
pub log2_ceil-lt : (n : ℕ) → n ≤ 2 ^ 63 → log2_ceil n < 64
log2_ceil-lt n h = elim (dec_lt (log2_ceil n) 64) [
  | yes p ↦ p
  | no p ↦
      let big : 2 ^ 64 ≤ 2 ^ log2_ceil n =
        pow-le-pow_right {n = 2} (omega arith) {i = 64} {j = log2_ceil n} (omega arith) in
      absurd (omega (arith, next_power_of_two_lem n (omega arith)))
]
