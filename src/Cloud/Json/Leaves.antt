-- ===== src/Cloud/Json/Leaves.antt =====
-- The pieces of the parser of crates/tpt-t-cloud/src/json.rs have fuel enough, and take bytes off.
use tpt_teleop.Prelude.{
  ℕ, zero, suc, ◌<◌, ◌≤◌, ◌≡◌, arith, Bool, true, false, Bool-cases, inl, inr, Option, none, some,
  Option-cases, List, [], ◌∷◌, length, ◌==◌, if◌then◌else◌,
}
use tpt_teleop.Cloud.Json.{F64}
use tpt_teleop.Cloud.Json.Parse.{
  JsonError, Parsed, ok, err, bind, skip_ws, strip, expect, bad_u_escape, bad_codepoint, from_hex,
  is_char, StringStep, ended, pushed, failed, u_step, escape_step, string_step, string_loop,
  parse_string, digits, is_ascii_digit, sign_part, fraction_part, exponent_sign, exponent_part,
  number_slice, numeric, first_of, after_byte, RoundEnd, more, closed, cut, bad, round_end,
  parse_key, number_of, parse_number,
}

-- The run had fuel enough, and leaves fewer than `n` bytes if it succeeds.
pub data Leaves {ℓ} {A : Type ℓ} (n : ℕ) : Parsed (A × List ℕ) → Type ℓ where
  leaves : {a : A} {rest : List ℕ} → length rest < n → Leaves n (ok (a, rest))
  fails : {e : JsonError} → Leaves n (err e)

pub Leaves-bind {ℓ κ} :
    {A : Type ℓ} {B : Type κ} {n m : ℕ} {p : Parsed (A × List ℕ)}
    {f : A × List ℕ → Parsed (B × List ℕ)}
    → Leaves n p
    → ((x : A × List ℕ) → length x.1 < n → Leaves m (f x))
    → Leaves m (bind p f)
Leaves-bind (leaves {a} {rest} h) k = k (a, rest) h
Leaves-bind fails k = fails

pub Leaves-le {ℓ} :
    {A : Type ℓ} {n m : ℕ} {p : Parsed (A × List ℕ)} → n ≤ m → Leaves n p → Leaves m p
Leaves-le le (leaves h) = leaves (omega arith)
Leaves-le le fails = fails

data StepLeaves (n : ℕ) : StringStep → Type 0 where
  ends : {rest : List ℕ} → length rest < n → StepLeaves n (ended rest)
  pushes : {c : ℕ} {rest : List ℕ} → length rest < n → StepLeaves n (pushed c rest)
  fails : {e : JsonError} → StepLeaves n (failed e)

StepLeaves-le : {n m : ℕ} {s : StringStep} → n ≤ m → StepLeaves n s → StepLeaves m s
StepLeaves-le le (ends h) = ends (omega arith)
StepLeaves-le le (pushes h) = pushes (omega arith)
StepLeaves-le le fails = fails

StepLeaves-if :
    {n : ℕ} (b : Bool) {x y : StringStep}
    → StepLeaves n x
    → StepLeaves n y
    → StepLeaves n (if b then x else y)
StepLeaves-if true hx hy = hx
StepLeaves-if false hx hy = hy

u_step-StepLeaves : (b : List ℕ) → StepLeaves (suc (length b)) (u_step b)
unfolding u_step
u_step-StepLeaves (a ∷ b ∷ c ∷ d ∷ rest) =
    elim (from_hex (a ∷ b ∷ c ∷ d ∷ []))
      as (λ code. StepLeaves (suc (suc (suc (suc (suc (length rest)))))) (elim code [
        | none ↦ failed bad_u_escape
        | some code ↦ if is_char code then pushed code rest else failed bad_codepoint
      ])) [ none ↦ fails | some code ↦ StepLeaves-if (is_char code) (pushes (omega arith)) fails ]
u_step-StepLeaves _ = fails

escape_step-StepLeaves : (b : List ℕ) → StepLeaves (suc (length b)) (escape_step b)
unfolding escape_step
escape_step-StepLeaves [] = fails
escape_step-StepLeaves (e ∷ rest) =
    let shorter : (c : ℕ) → StepLeaves (suc (suc (length rest))) (pushed c rest) =
      λ c. pushes (omega arith) in
    StepLeaves-if (e == b'"') (shorter b'"') (
      StepLeaves-if (e == b'\\') (shorter b'\\') (
        StepLeaves-if (e == b'/') (shorter b'/') (
          StepLeaves-if (e == b'n') (shorter 10) (
            StepLeaves-if (e == b'r') (shorter 13) (
              StepLeaves-if (e == b't') (shorter 9) (
                StepLeaves-if (e == b'b') (shorter 8) (
                  StepLeaves-if (e == b'f') (shorter 12) (
                    StepLeaves-if (e == b'u') (StepLeaves-le (omega arith) (u_step-StepLeaves rest))
                      fails))))))))

string_step-StepLeaves : (b : List ℕ) → StepLeaves (length b) (string_step b)
unfolding string_step
string_step-StepLeaves [] = fails
string_step-StepLeaves (c ∷ rest) =
    StepLeaves-if (c == b'"') (ends (omega arith))
      (StepLeaves-if (c == b'\\') (escape_step-StepLeaves rest) (pushes (omega arith)))

string_loop-Leaves :
    (fuel : ℕ) (b : List ℕ) → length b < fuel → Leaves (length b) (string_loop fuel b)
unfolding string_loop
string_loop-Leaves zero b h = absurd (omega arith)
string_loop-Leaves (suc fuel) b h =
    go (string_step b) (string_step-StepLeaves b)
      (λ rest less. string_loop-Leaves fuel rest (omega arith))
  where
    go :
        (s : StringStep)
        → StepLeaves (length b) s
        → ((rest : List ℕ) → length rest < length b → Leaves (length rest) (string_loop fuel rest))
        → Leaves {A = List ℕ} (length b) (elim s [
          | ended rest ↦ ok ([], rest)
          | pushed c rest ↦ bind (string_loop fuel rest) λ (t, after). ok (c ∷ t, after)
          | failed e ↦ err e
        ])
    go _ (ends shorter) ih = leaves shorter
    go _ (pushes {rest} shorter) ih = Leaves-bind (ih rest shorter) λ _ less. leaves (omega arith)
    go _ fails ih = fails

pub parse_string-Leaves : (b : List ℕ) → Leaves (length b) (parse_string b)
unfolding parse_string
parse_string-Leaves b = string_loop-Leaves (suc (length b)) b (omega arith)

pub skip_ws_le : (b : List ℕ) → length (skip_ws b) ≤ length b
unfolding skip_ws
skip_ws_le [] = omega arith
skip_ws_le (c ∷ b) = ground (arith, skip_ws_le b)

-- What is found leaves fewer than `n` bytes.
pub data Fewer (n : ℕ) : Option (List ℕ) → Type 0 where
  found : {rest : List ℕ} → length rest < n → Fewer n (some rest)
  absent : Fewer n none

Fewer-if : {n : ℕ} (b : Bool) {o : Option (List ℕ)} → Fewer n o → Fewer n (if b then o else none)
Fewer-if true h = h
Fewer-if false h = absent

Fewer-le : {n m : ℕ} {o : Option (List ℕ)} → n ≤ m → Fewer n o → Fewer m o
Fewer-le le (found h) = found (omega arith)
Fewer-le le absent = absent

pub Leaves-elim {ℓ} :
    {A : Type ℓ} {n m : ℕ} {o : Option (List ℕ)} {x : Parsed (A × List ℕ)}
    {f : List ℕ → Parsed (A × List ℕ)}
    → Fewer n o
    → Leaves m x
    → ((rest : List ℕ) → length rest < n → Leaves m (f rest))
    → Leaves m (elim o [ none ↦ x | some rest ↦ f rest ])
Leaves-elim (found {rest} h) hx hf = hf rest h
Leaves-elim absent hx hf = hx

strip-Fewer : (lit b : List ℕ) → Fewer (suc (length b)) (strip lit b)
unfolding strip
strip-Fewer [] b = found (omega arith)
strip-Fewer (l ∷ lit) [] = absent
strip-Fewer (l ∷ lit) (c ∷ b) = Fewer-if (c == l) (Fewer-le (omega arith) (strip-Fewer lit b))

strip-Fewer' : (l : ℕ) (lit b : List ℕ) → Fewer (length b) (strip (l ∷ lit) b)
unfolding strip
strip-Fewer' l lit [] = absent
strip-Fewer' l lit (c ∷ b) = Fewer-if (c == l) (strip-Fewer lit b)

pub expect-Leaves {ℓ} :
    {A : Type ℓ} (l : ℕ) (lit : List ℕ) (a : A) (b : List ℕ)
    → Leaves (length b) (expect (l ∷ lit) a b)
unfolding expect
expect-Leaves l lit a b = Leaves-elim (strip-Fewer' l lit b) fails (λ rest h. leaves h)

pub after_byte-Fewer : (c : ℕ) (b : List ℕ) → Fewer (length b) (after_byte c b)
unfolding after_byte
after_byte-Fewer c [] = absent
after_byte-Fewer c (d ∷ b) = Fewer-if (d == c) (found (omega arith))

pub data RoundLeaves (n : ℕ) : RoundEnd → Type 0 where
  goes_on : {rest : List ℕ} → length rest < n → RoundLeaves n (more rest)
  closes : {rest : List ℕ} → length rest < n → RoundLeaves n (closed rest)
  cuts : RoundLeaves n cut
  breaks : RoundLeaves n bad

pub round_end-RoundLeaves : (close : ℕ) (b : List ℕ) → RoundLeaves (length b) (round_end close b)
unfolding round_end
round_end-RoundLeaves close [] = cuts
round_end-RoundLeaves close (c ∷ b) = elim (Bool-cases (c == b',')) [
  | inl comma ↦ rw (round_end, comma) (goes_on (omega arith))
  | inr other ↦ elim (Bool-cases (c == close)) [
    | inl last ↦ rw (round_end, other, last) (closes (omega arith))
    | inr wrong ↦ rw (round_end, other, wrong) breaks
  ]
]

pub parse_key-Leaves : (b : List ℕ) → Leaves (length b) (parse_key b)
unfolding parse_key
parse_key-Leaves b = Leaves-elim (after_byte-Fewer b'"' (skip_ws b)) fails λ b1 h1.
    Leaves-bind (parse_string-Leaves b1) λ (k, b2) h2.
      Leaves-elim (after_byte-Fewer b':' (skip_ws b2)) fails
        λ b3 h3. leaves (omega (arith, skip_ws_le b, skip_ws_le b2))

digits_le : (b : List ℕ) → length (digits b).1 ≤ length b
unfolding digits
digits_le [] = omega arith
digits_le (c ∷ b) = ground (arith, digits_le b)

fraction_le : (b : List ℕ) → length (fraction_part b).1 ≤ length b
unfolding fraction_part
fraction_le [] = omega arith
fraction_le (c ∷ b) = ground (arith, digits_le b)

sign_le : (b : List ℕ) → length (exponent_sign b).1 ≤ length b
unfolding exponent_sign
sign_le [] = omega arith
sign_le (c ∷ b) = ground arith

exponent_le : (b : List ℕ) → length (exponent_part b).1 ≤ length b
unfolding exponent_part
exponent_le [] = omega arith
exponent_le (c ∷ b) = ground (arith, sign_le b, digits_le (exponent_sign b).1)

after_digits_le : (b : List ℕ) → length (exponent_part (fraction_part (digits b).1).1).1 ≤ length b
after_digits_le b =
    omega (arith, digits_le b, fraction_le (digits b).1, exponent_le (fraction_part (digits b).1).1)

first_digits_le :
    (c : ℕ) (b : List ℕ)
    → is_ascii_digit c ≡ true
    → length (exponent_part (fraction_part (digits (c ∷ b)).1).1).1 ≤ length b
unfolding digits
first_digits_le c b h = rw h (after_digits_le b)

-- A number that starts with a sign or a digit takes a byte at least.
number_le : (c : ℕ) (b : List ℕ) → first_of c ≡ numeric → length (number_slice (c ∷ b)).1 ≤ length b
unfolding number_slice sign_part
number_le c b h = elim (Bool-cases (c == b'-')) [
  | inl signed ↦ rw (number_slice, signed) (after_digits_le b)
  | inr unsigned ↦ rw (number_slice, unsigned) (first_digits_le c b (ground (arith, h, unsigned)))
]

pub number-Leaves :
    {F : Type 0} (f64 : F64 F) (c : ℕ) (b : List ℕ)
    → first_of c ≡ numeric
    → Leaves (length (c ∷ b)) (parse_number f64 (c ∷ b))
unfolding parse_number number_of
number-Leaves f64 c b h = elim (Option-cases (f64.parse_f64 (number_slice (c ∷ b)).0)) [
  | inl wrong ↦ rw (number_of, wrong) fails
  | inr (n, read) ↦ rw (number_of, read) (leaves (omega (arith, number_le c b h)))
]
