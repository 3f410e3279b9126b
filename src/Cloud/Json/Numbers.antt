-- ===== src/Cloud/Json/Numbers.antt =====
-- Numbers of crates/tpt-t-cloud/src/json.rs, as `{}` prints an `f64` or an `i64`.
use tpt_teleop.Prelude.{
  ℕ, ◌≡◌, refl, ap, ◌∙◌, sym, Bool-cases, inl, inr, append-nil, arith, Bool, true, false, ◌||◌,
  some, List, [], ◌∷◌, ◌++◌, append_assoc, All, ◌==◌, if◌then◌else◌,
}
use tpt_teleop.Cloud.Json.{F64, num, write_num}
use tpt_teleop.Cloud.Json.Parse.{
  ok, numeric, first_of, is_ws, number_of, is_ascii_digit, digits, sign_part, fraction_part,
  exponent_part, number_slice, parse_number,
}

abbrev pub Digits : List ℕ → Type 0
Digits ds = All (λ c. is_ascii_digit c ≡ true) ds

abbrev pub minus : Bool → List ℕ
minus negative = if negative then b'-' ∷ [] else []

abbrev pub point : List ℕ → List ℕ
point [] = []
point (d ∷ ds) = b'.' ∷ d ∷ ds

-- A decimal without an exponent: a sign or none, a digit at least, a fraction or none.
pub record IsDecimal (text : List ℕ) : Type 0 where
  pub negative : Bool
  pub leading : ℕ
  pub whole : List ℕ
  pub fraction : List ℕ
  pub leading_digit : is_ascii_digit leading ≡ true
  pub whole_digits : Digits whole
  pub fraction_digits : Digits fraction
  pub spelled : text ≡ minus negative ++ (leading ∷ whole ++ point fraction)

-- What follows a number does not go on with it.
abbrev pub goes_on : ℕ → Bool
goes_on c = is_ascii_digit c || c == b'.' || c == b'e' || c == b'E'

abbrev pub Stops : List ℕ → Type 0
Stops [] = Unit
Stops (c ∷ rest) = goes_on c ≡ false

-- The number is printed as a decimal from which `parse` makes it again.
pub record Readable {F : Type 0} (f64 : F64 F) (n : F) : Type 0 where
  pub decimal : IsDecimal (write_num f64 n)
  pub reads : f64.parse_f64 (write_num f64 n) ≡ some n

digits-Stops : (rest : List ℕ) → Stops rest → digits rest ≡ ([], rest)
unfolding digits
digits-Stops [] h = refl
digits-Stops (c ∷ rest) h = ground (arith, h)

digits-append :
    (ds rest : List ℕ) → Digits ds → digits rest ≡ ([], rest) → digits (ds ++ rest) ≡ (ds, rest)
unfolding digits
digits-append [] rest h stop = stop
digits-append (d ∷ ds) rest (here, h) stop = rw (digits, digits-append ds rest h stop, here) refl

exponent-Stops : (rest : List ℕ) → Stops rest → exponent_part rest ≡ ([], rest)
unfolding exponent_part
exponent-Stops [] h = refl
exponent-Stops (c ∷ rest) h = ground (arith, h)

fraction-append :
    (ds rest : List ℕ)
    → Digits ds
    → Stops rest
    → fraction_part (point ds ++ rest) ≡ (point ds, rest)
unfolding fraction_part
fraction-append [] [] h stop = refl
fraction-append [] (c ∷ rest) h stop = ground (arith, stop)
fraction-append (d ∷ ds) rest h stop =
    rw (fraction_part, digits-append (d ∷ ds) rest h (digits-Stops rest stop)) refl

point-Stops : (ds rest : List ℕ) → Stops rest → digits (point ds ++ rest) ≡ ([], point ds ++ rest)
unfolding digits
point-Stops [] rest h = digits-Stops rest h
point-Stops (d ∷ ds) rest h = refl

sign-append :
    (negative : Bool) (d : ℕ) (b : List ℕ)
    → is_ascii_digit d ≡ true
    → sign_part (minus negative ++ d ∷ b) ≡ (minus negative, d ∷ b)
unfolding sign_part
sign-append true d b h = refl
sign-append false d b h = ground (arith, h)

number_slice_lem :
    (text rest : List ℕ) → IsDecimal text → Stops rest → number_slice (text ++ rest) ≡ (text, rest)
unfolding number_slice
number_slice_lem text rest t stop =
    let tail = point t.fraction ++ rest in
    let shape : text ++ rest ≡ minus t.negative ++ (t.leading ∷ t.whole ++ tail) =
      simp (t.spelled, append_assoc) in
    let sign = sign-append t.negative t.leading (t.whole ++ tail) t.leading_digit in
    let whole =
      digits-append (t.leading ∷ t.whole) tail (t.leading_digit, t.whole_digits)
        (point-Stops t.fraction rest stop) in
    let fraction = fraction-append t.fraction rest t.fraction_digits stop in
    rw
      (
        number_slice,
        shape,
        sign,
        whole,
        fraction,
        exponent-Stops rest stop,
        append-nil (point t.fraction),
      )
      (ap (λ (bytes : List ℕ). (bytes, rest)) (sym t.spelled))

-- A number that was printed is read back whole, if what follows does not go on with it.
pub parse_number-write_num :
    {F : Type 0} (f64 : F64 F) (n : F) (rest : List ℕ)
    → Readable f64 n
    → Stops rest
    → parse_number f64 (write_num f64 n ++ rest) ≡ ok (num n, rest)
unfolding parse_number number_of
parse_number-write_num f64 n rest r stop =
    ap (number_of f64) (number_slice_lem (write_num f64 n) rest r.decimal stop)
    ∙ rw (number_of, r.reads) refl

-- The first byte of a number is not a space, nor the end of an array.
pub decimal_opens :
    (text : List ℕ)
    → IsDecimal text
    → (c : ℕ) × (t : List ℕ) × (text ≡ c ∷ t)
      × (first_of c ≡ numeric)
      × (is_ws c ≡ false)
      × ((c == b']') ≡ false)
decimal_opens text d = elim (Bool-cases d.negative) [
  | inl minus_first ↦ (
    b'-',
    d.leading ∷ d.whole ++ point d.fraction,
    rw (d.spelled, minus_first) refl,
    refl,
    refl,
    refl,
  )
  | inr unsigned ↦
      let digit = d.leading_digit in
      (
        d.leading,
        d.whole ++ point d.fraction,
        rw (d.spelled, unsigned) refl,
        ground (arith, digit),
        ground (arith, digit),
        ground (arith, digit),
      )
]
