-- ===== src/Prelude/Bytes.antt =====
-- Numbers as their bytes, the lowest first, and the pieces of a list of bytes.
use native.Mathlib.Nat.{pow-succ'}
use tpt_teleop.Prelude.{
  ℕ, zero, suc, ◌+◌, ◌*◌, ◌/◌, ◌%◌, ◌^◌, ◌<◌, ◌≤◌, ◌≡◌, refl, ◌∙◌, ap, arith, List, [], ◌∷◌, ◌++◌,
  length, take, drop,
}

-- The `n` lowest bytes of a number, the lowest first (`to_le_bytes`), and the number of such bytes
-- (`from_le_bytes`).
unfoldable pub to_le_bytes : ℕ → ℕ → List ℕ
to_le_bytes zero v = []
to_le_bytes (suc n) v = v % 256 ∷ to_le_bytes n (v / 256)

unfoldable pub from_le_bytes : List ℕ → ℕ
from_le_bytes [] = 0
from_le_bytes (b ∷ bs) = b + 256 * from_le_bytes bs

-- The field of `n` bytes that starts at a place.
unfoldable pub field : ℕ → ℕ → List ℕ → ℕ
unfolding from_le_bytes
field start n bytes = from_le_bytes (take n (drop start bytes))

pub length-to_le_bytes : (n v : ℕ) → length (to_le_bytes n v) ≡ n
unfolding to_le_bytes
length-to_le_bytes zero v = refl
length-to_le_bytes (suc n) v = ap suc (length-to_le_bytes n (v / 256))

pub from_le_bytes-to_le_bytes : (n v : ℕ) → v < 256 ^ n → from_le_bytes (to_le_bytes n v) ≡ v
unfolding to_le_bytes from_le_bytes
from_le_bytes-to_le_bytes zero v h = omega (arith, h)
from_le_bytes-to_le_bytes (suc n) v h =
    let rest = from_le_bytes-to_le_bytes n (v / 256) (omega (arith, h, pow-succ' 256 n)) in
    omega (arith, rest)

pub take-append {ℓ} : {A : Type ℓ} (n : ℕ) (xs ys : List A) → length xs ≡ n → take n (xs ++ ys) ≡ xs
take-append zero [] ys e = refl
take-append zero (x ∷ xs) ys e = absurd (omega (arith, e))
take-append (suc n) [] ys e = absurd (omega (arith, e))
take-append (suc n) (x ∷ xs) ys e = ap (λ l. x ∷ l) (take-append n xs ys (omega (arith, e)))

pub drop-append {ℓ} :
    {A : Type ℓ} (n k : ℕ) (xs ys : List A) → length xs ≡ n → drop (n + k) (xs ++ ys) ≡ drop k ys
drop-append zero k [] ys e = ap (λ m. drop m ys) (omega arith)
drop-append zero k (x ∷ xs) ys e = absurd (omega (arith, e))
drop-append (suc n) k [] ys e = absurd (omega (arith, e))
drop-append (suc n) k (x ∷ xs) ys e =
    let step : suc n + k ≡ suc (n + k) = omega arith in
    ap (λ m. drop m (x ∷ (xs ++ ys))) step ∙ drop-append n k xs ys (omega (arith, e))

pub drop-append_full {ℓ} :
    {A : Type ℓ} (n : ℕ) (xs ys : List A) → length xs ≡ n → drop n (xs ++ ys) ≡ ys
drop-append_full zero [] ys e = refl
drop-append_full zero (x ∷ xs) ys e = absurd (omega (arith, e))
drop-append_full (suc n) [] ys e = absurd (omega (arith, e))
drop-append_full (suc n) (x ∷ xs) ys e = drop-append_full n xs ys (omega (arith, e))

pub drop_all {ℓ} : {A : Type ℓ} (n : ℕ) (xs : List A) → length xs ≤ n → drop n xs ≡ []
drop_all zero [] h = refl
drop_all zero (x ∷ xs) h = absurd (omega (arith, h))
drop_all (suc n) [] h = refl
drop_all (suc n) (x ∷ xs) h = drop_all n xs (omega (arith, h))
