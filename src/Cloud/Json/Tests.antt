-- ===== src/Cloud/Json/Tests.antt =====
-- Runs of the writer and the parser of crates/tpt-t-cloud/src/json.rs on small inputs; a number here
-- is a digit.
use tpt_teleop.Prelude.{ℕ, ◌+◌, ◌-◌, ◌≡◌, refl, true, false, Option, none, some, List, [], ◌∷◌}
use tpt_teleop.Cloud.Json.{
  F64, Json, null, num, str, arr, obj, no_items, item, no_fields, field, write,
}
use tpt_teleop.Cloud.Json.Parse.{ok, err, bad_codepoint, unexpected, parse}
use tpt_teleop.Cloud.Json.{write_num}
use tpt_teleop.Cloud.Json.Numbers.{Readable}
use tpt_teleop.Cloud.Json.Bytewise.{bytewise, IsReadable}
use tpt_teleop.Cloud.Json.RoundTrip.{parse-write}
use tpt_teleop.Cloud.Json.Enough.{Answers, parse-Answers}

abbrev read_digit : List ℕ → Option ℕ
read_digit (c ∷ []) = some (c - b'0')
read_digit _ = none

abbrev one_digit : F64 ℕ
one_digit = record {
  is_finite = λ n. true;
  fract_is_zero = λ n. true;
  abs_below_1e15 = λ n. true;
  format_as_i64 = λ n. (b'0' + n) ∷ [];
  format = λ n. [];
  parse_f64 = read_digit;
  of_u64 = λ n. n;
  to_u64 = λ n. n;
}

-- {"a\n":[1,null],"":{}}
abbrev sample : Json ℕ
sample = obj (
    field (b'a' ∷ 10 ∷ []) (arr (item (num 1) (item null no_items)))
      (field [] (obj no_fields) no_fields))

sample_parses : parse one_digit (write one_digit sample) ≡ ok sample
unfolding parse write
sample_parses = refl

trailing_comma : parse one_digit (b'[' ∷ b'1' ∷ b',' ∷ b']' ∷ []) ≡ err (unexpected b']')
unfolding parse
trailing_comma = refl

-- A string of one code point above the ASCII range comes back as the bytes of its encoding.
accent_lost : parse one_digit (write one_digit (str (0xE9 ∷ []))) ≡ ok (str (0xC3 ∷ 0xA9 ∷ []))
unfolding parse write
accent_lost = refl

-- "\u+041" is taken for "A".
signed_escape :
    parse one_digit (b'"' ∷ b'\\' ∷ b'u' ∷ b'+' ∷ b'0' ∷ b'4' ∷ b'1' ∷ b'"' ∷ [])
    ≡ ok (str (65 ∷ []))
unfolding parse
signed_escape = refl

-- "\ud83d\ude00" is refused.
surrogates_refused :
    parse one_digit (
      b'"' ∷ b'\\' ∷ b'u' ∷ b'd' ∷ b'8' ∷ b'3' ∷ b'd' ∷ b'\\' ∷ b'u' ∷ b'd' ∷ b'e' ∷ b'0' ∷ b'0'
      ∷ b'"' ∷ [])
    ≡ err bad_codepoint
unfolding parse
surrogates_refused = refl

one_is_Readable : Readable one_digit 1
unfolding write_num
one_is_Readable = record {
  decimal = record {
    negative = false;
    leading = b'1';
    whole = [];
    fraction = [];
    leading_digit = refl;
    whole_digits = tt;
    fraction_digits = tt;
    spelled = refl;
  };
  reads = refl;
}

-- {"a":["é",1]}
abbrev accented : Json ℕ
accented = obj (field (b'a' ∷ []) (arr (item (str (0xE9 ∷ [])) (item (num 1) no_items))) no_fields)

parse-write_example : parse one_digit (write one_digit accented) ≡ ok (bytewise accented)
unfolding IsReadable
parse-write_example = parse-write one_digit accented ((tt, (one_is_Readable, tt)), tt)

parse-Answers_example : Answers (parse one_digit (b'[' ∷ b'1' ∷ b',' ∷ []))
parse-Answers_example = parse-Answers one_digit (b'[' ∷ b'1' ∷ b',' ∷ [])
