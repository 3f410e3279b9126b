-- ===== src/Cloud/Json/Parse.antt =====
-- The parser of crates/tpt-t-cloud/src/json.rs. The index into the bytes is the list of bytes from it
-- on. Every call of the recursive descent, and every round of a string's loop, takes one unit of fuel.
use tpt_teleop.Prelude.{
  ℕ, zero, suc, ◌+◌, ◌-◌, ◌*◌, Bool, true, false, ◌&&◌, ◌||◌, Option, none, some, List, [], ◌∷◌,
  ◌++◌, length, ltb, leb, ◌==◌, if◌then◌else◌,
}
use tpt_teleop.Cloud.Json.{
  F64, Json, Items, Fields, null, bool, num, str, arr, obj, no_items, item, no_fields, field,
}
mod Scan
unfoldable pub use Scan.*

-- What `parse_value` and its callers branch on in the first byte.
pub data First : Type 0 where
  quote : First
  brace : First
  bracket : First
  letter_t : First
  letter_f : First
  letter_n : First
  numeric : First
  other : First

abbrev pub first_of : ℕ → First
first_of c =
    if c == b'"'
    then quote
    else if c == b'{'
    then brace
    else if c == b'['
    then bracket
    else if c == b't'
    then letter_t
    else if c == b'f'
    then letter_f
    else if c == b'n'
    then letter_n
    else if c == b'-' || is_ascii_digit c
    then numeric
    else other

-- The test for the byte that ends an array or an object at once.
unfoldable pub after_byte : ℕ → List ℕ → Option (List ℕ)
after_byte c [] = none
after_byte c (d ∷ b) = if d == c then some b else none

-- What ends a round of the loops of `parse_array` and of `parse_object`.
pub data RoundEnd : Type 0 where
  more : List ℕ → RoundEnd
  closed : List ℕ → RoundEnd
  cut : RoundEnd
  bad : RoundEnd

unfoldable pub round_end : ℕ → List ℕ → RoundEnd
round_end close [] = cut
round_end close (c ∷ b) = if c == b',' then more b else if c == close then closed b else bad

-- The key of a field and the colon.
unfoldable pub parse_key : List ℕ → Parsed (List ℕ × List ℕ)
unfolding skip_ws after_byte parse_string
parse_key b = elim (after_byte b'"' (skip_ws b)) [
  | none ↦ err object_key
  | some b1 ↦ bind (parse_string b1) λ (key, b2). elim (after_byte b':' (skip_ws b2)) [
    | none ↦ err object_colon
    | some b3 ↦ ok (key, b3)
  ]
]

module _ {F : Type 0} (f64 : F64 F) where
  -- The end of `parse_number`.
  unfoldable pub number_of : List ℕ × List ℕ → Parsed (Json F × List ℕ)
  number_of (slice, rest) = elim (f64.parse_f64 slice) [
    | none ↦ err invalid_number
    | some n ↦ ok (num n, rest)
  ]

  unfoldable pub parse_number : List ℕ → Parsed (Json F × List ℕ)
  unfolding number_slice number_of
  parse_number b = number_of (number_slice b)

  unfoldable mutual
    unfolding expect skip_ws parse_string parse_number after_byte round_end parse_key

    pub parse_value : ℕ → List ℕ → Parsed (Json F × List ℕ)
    parse_value zero b = out_of_fuel
    parse_value (suc fuel) b = elim (skip_ws b) [
      | [] ↦ err end_of_input
      | c ∷ rest ↦ elim (first_of c) [
        | quote ↦ bind (parse_string rest) λ (s, after). ok (str s, after)
        | brace ↦ elim (after_byte b'}' (skip_ws rest)) [
          | some after ↦ ok (obj no_fields, after)
          | none ↦ bind (parse_fields fuel (skip_ws rest)) λ (fs, after). ok (obj fs, after)
        ]
        | bracket ↦ elim (after_byte b']' (skip_ws rest)) [
          | some after ↦ ok (arr no_items, after)
          | none ↦ bind (parse_items fuel (skip_ws rest)) λ (vs, after). ok (arr vs, after)
        ]
        | letter_t ↦ expect (b't' ∷ b'r' ∷ b'u' ∷ b'e' ∷ []) (bool true) (c ∷ rest)
        | letter_f ↦ expect (b'f' ∷ b'a' ∷ b'l' ∷ b's' ∷ b'e' ∷ []) (bool false) (c ∷ rest)
        | letter_n ↦ expect (b'n' ∷ b'u' ∷ b'l' ∷ b'l' ∷ []) null (c ∷ rest)
        | numeric ↦ parse_number (c ∷ rest)
        | other ↦ err (unexpected c)
      ]
    ]

    -- The loop of `parse_array`.
    pub parse_items : ℕ → List ℕ → Parsed (Items F × List ℕ)
    parse_items zero b = out_of_fuel
    parse_items (suc fuel) b = bind (parse_value fuel b) λ (v, b1).
        elim (round_end b']' (skip_ws b1)) [
          | more b2 ↦ bind (parse_items fuel b2) λ (vs, after). ok (item v vs, after)
          | closed b2 ↦ ok (item v no_items, b2)
          | cut ↦ err unterminated_array
          | bad ↦ err array_separator
        ]

    -- The loop of `parse_object`.
    pub parse_fields : ℕ → List ℕ → Parsed (Fields F × List ℕ)
    parse_fields zero b = out_of_fuel
    parse_fields (suc fuel) b = bind (parse_key b) λ (key, b1).
        bind (parse_value fuel b1) λ (v, b2). elim (round_end b'}' (skip_ws b2)) [
          | more b3 ↦ bind (parse_fields fuel b3) λ (fs, after). ok (field key v fs, after)
          | closed b3 ↦ ok (field key v no_fields, b3)
          | cut ↦ err unterminated_object
          | bad ↦ err object_separator
        ]

  unfoldable pub finish : Json F × List ℕ → Parsed (Json F)
  unfolding skip_ws
  finish (v, b) = elim (skip_ws b) [ [] ↦ ok v | _ ∷ _ ↦ err trailing_data ]

  -- `Json::parse`
  unfoldable pub parse : List ℕ → Parsed (Json F)
  unfolding parse_value finish
  parse b = bind (parse_value (2 * length b + 1) b) finish
