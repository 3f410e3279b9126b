-- ===== src/Cloud/Json/Parse/Scan.antt =====
-- The scanners of crates/tpt-t-cloud/src/json.rs: spaces, literals, strings and the digits of numbers.
use tpt_teleop.Prelude.{
  ℕ, zero, suc, ◌+◌, ◌-◌, ◌*◌, Bool, ◌&&◌, ◌||◌, Option, none, some, List, [], ◌∷◌, ◌++◌, length,
  ltb, leb, ◌==◌, if◌then◌else◌,
}

-- The messages, in the order of the source.
pub data JsonError : Type 0 where
  trailing_data : JsonError
  end_of_input : JsonError
  unexpected : ℕ → JsonError
  expected : List ℕ → JsonError
  unterminated_escape : JsonError
  bad_u_escape : JsonError
  bad_codepoint : JsonError
  bad_escape : ℕ → JsonError
  unterminated_string : JsonError
  invalid_number : JsonError
  unterminated_array : JsonError
  array_separator : JsonError
  object_key : JsonError
  object_colon : JsonError
  unterminated_object : JsonError
  object_separator : JsonError

pub data Parsed {ℓ} (A : Type ℓ) : Type ℓ where
  ok : A → Parsed A
  err : JsonError → Parsed A
  out_of_fuel : Parsed A

abbrev pub bind {ℓ κ} : {A : Type ℓ} {B : Type κ} → Parsed A → (A → Parsed B) → Parsed B
bind (ok a) f = f a
bind (err e) f = err e
bind out_of_fuel f = out_of_fuel

abbrev pub is_ws : ℕ → Bool
is_ws c = c == b' ' || c == 9 || c == 10 || c == 13

unfoldable pub skip_ws : List ℕ → List ℕ
skip_ws [] = []
skip_ws (c ∷ b) = let rest = skip_ws b in if is_ws c then rest else c ∷ b

-- The rest after `lit`, if it comes first.
unfoldable pub strip : List ℕ → List ℕ → Option (List ℕ)
strip [] b = some b
strip (l ∷ lit) [] = none
strip (l ∷ lit) (c ∷ b) = let rest = strip lit b in if c == l then rest else none

unfoldable pub expect {ℓ} : {A : Type ℓ} → List ℕ → A → List ℕ → Parsed (A × List ℕ)
unfolding strip
expect lit a b = elim (strip lit b) [ none ↦ err (expected lit) | some rest ↦ ok (a, rest) ]

abbrev pub is_ascii_digit : ℕ → Bool
is_ascii_digit c = leb b'0' c && leb c b'9'

-- The digit that `u32::from_str_radix` reads in base 16.
abbrev pub hex_value : ℕ → Option ℕ
hex_value c =
    if is_ascii_digit c
    then some (c - b'0')
    else if leb b'a' c && leb c b'f'
    then some (c - b'a' + 10)
    else if leb b'A' c && leb c b'F'
    then some (c - b'A' + 10)
    else none

unfoldable pub hex_digits : ℕ → List ℕ → Option ℕ
hex_digits acc [] = some acc
hex_digits acc (c ∷ cs) = elim (hex_value c) [ none ↦ none | some d ↦ hex_digits (acc * 16 + d) cs ]

-- `u32::from_str_radix(_, 16)` of four bytes; it takes a sign in front of the digits.
unfoldable pub from_hex : List ℕ → Option ℕ
unfolding hex_digits
from_hex [] = none
from_hex (c ∷ cs) = if c == b'+' then hex_digits 0 cs else hex_digits 0 (c ∷ cs)

-- `char::from_u32`
abbrev pub is_char : ℕ → Bool
is_char c = ltb c 0xD800 || leb 0xE000 c && ltb c 0x110000

-- What a round of the loop of `parse_string` does: the string has ended, a character is pushed, or an
-- error is returned.
pub data StringStep : Type 0 where
  ended : List ℕ → StringStep
  pushed : ℕ → List ℕ → StringStep
  failed : JsonError → StringStep

unfoldable pub u_step : List ℕ → StringStep
unfolding from_hex
u_step (a ∷ b ∷ c ∷ d ∷ rest) = elim (from_hex (a ∷ b ∷ c ∷ d ∷ [])) [
  | none ↦ failed bad_u_escape
  | some code ↦ if is_char code then pushed code rest else failed bad_codepoint
]
u_step _ = failed bad_u_escape

unfoldable pub escape_step : List ℕ → StringStep
unfolding u_step
escape_step [] = failed unterminated_escape
escape_step (e ∷ rest) =
    if e == b'"'
    then pushed b'"' rest
    else if e == b'\\'
    then pushed b'\\' rest
    else if e == b'/'
    then pushed b'/' rest
    else if e == b'n'
    then pushed 10 rest
    else if e == b'r'
    then pushed 13 rest
    else if e == b't'
    then pushed 9 rest
    else if e == b'b'
    then pushed 8 rest
    else if e == b'f'
    then pushed 12 rest
    else if e == b'u'
    then u_step rest
    else failed (bad_escape e)

unfoldable pub string_step : List ℕ → StringStep
unfolding escape_step
string_step [] = failed unterminated_string
string_step (c ∷ rest) =
    if c == b'"' then ended rest else if c == b'\\' then escape_step rest else pushed c rest

unfoldable pub string_loop : ℕ → List ℕ → Parsed (List ℕ × List ℕ)
unfolding string_step
string_loop zero b = out_of_fuel
string_loop (suc fuel) b = elim (string_step b) [
  | ended rest ↦ ok ([], rest)
  | pushed c rest ↦ bind (string_loop fuel rest) λ (s, after). ok (c ∷ s, after)
  | failed e ↦ err e
]

-- `parse_string` after the quotation mark.
unfoldable pub parse_string : List ℕ → Parsed (List ℕ × List ℕ)
unfolding string_loop
parse_string b = string_loop (suc (length b)) b

-- The digits that come first, and the rest.
unfoldable pub digits : List ℕ → List ℕ × List ℕ
digits [] = ([], [])
digits (c ∷ b) =
    let (ds, rest) = digits b in if is_ascii_digit c then (c ∷ ds, rest) else ([], c ∷ b)

unfoldable pub sign_part : List ℕ → List ℕ × List ℕ
sign_part [] = ([], [])
sign_part (c ∷ b) = if c == b'-' then (c ∷ [], b) else ([], c ∷ b)

unfoldable pub fraction_part : List ℕ → List ℕ × List ℕ
unfolding digits
fraction_part [] = ([], [])
fraction_part (c ∷ b) =
    let (ds, rest) = digits b in if c == b'.' then (c ∷ ds, rest) else ([], c ∷ b)

unfoldable pub exponent_sign : List ℕ → List ℕ × List ℕ
exponent_sign [] = ([], [])
exponent_sign (c ∷ b) = if c == b'+' || c == b'-' then (c ∷ [], b) else ([], c ∷ b)

unfoldable pub exponent_part : List ℕ → List ℕ × List ℕ
unfolding digits exponent_sign
exponent_part [] = ([], [])
exponent_part (c ∷ b) =
    let (sign, b1) = exponent_sign b in
    let (ds, b2) = digits b1 in
    if c == b'e' || c == b'E' then (c ∷ (sign ++ ds), b2) else ([], c ∷ b)

-- `start..*i` at the end of `parse_number`, and what follows it.
unfoldable pub number_slice : List ℕ → List ℕ × List ℕ
unfolding sign_part digits fraction_part exponent_part
number_slice b =
    let (sign, b1) = sign_part b in
    let (whole, b2) = digits b1 in
    let (fraction, b3) = fraction_part b2 in
    let (exponent, b4) = exponent_part b3 in (sign ++ (whole ++ (fraction ++ exponent)), b4)
