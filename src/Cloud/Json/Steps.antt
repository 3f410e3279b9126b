-- ===== src/Cloud/Json/Steps.antt =====
-- The cases of the parser of crates/tpt-t-cloud/src/json.rs that call it again.
use tpt_teleop.Prelude.{ℕ, suc, ◌≡◌, arith, none, List, ◌∷◌}
use tpt_teleop.Cloud.Json.{F64, Json, Items, Fields, arr, obj, no_items, item, no_fields, field}
use tpt_teleop.Cloud.Json.Parse.{
  ok, skip_ws, after_byte, round_end, more, closed, parse_key, parse_value, parse_items,
  parse_fields,
}

module _ {F : Type 0} (f64 : F64 F) (fuel : ℕ) (b rest : List ℕ) where
  pub array_step :
      (vs : Items F)
      → after_byte b']' (skip_ws b) ≡ none
      → parse_items f64 fuel (skip_ws b) ≡ ok (vs, rest)
      → parse_value f64 (suc fuel) (b'[' ∷ b) ≡ ok (arr vs, rest)
  unfolding parse_value skip_ws
  array_step vs opens items = ground (arith, opens, items)

  pub object_step :
      (fs : Fields F)
      → after_byte b'}' (skip_ws b) ≡ none
      → parse_fields f64 fuel (skip_ws b) ≡ ok (fs, rest)
      → parse_value f64 (suc fuel) (b'{' ∷ b) ≡ ok (obj fs, rest)
  unfolding parse_value skip_ws
  object_step fs opens fields = ground (arith, opens, fields)

  pub last_item :
      (v : Json F) {b1 : List ℕ}
      → parse_value f64 fuel b ≡ ok (v, b1)
      → round_end b']' (skip_ws b1) ≡ closed rest
      → parse_items f64 (suc fuel) b ≡ ok (item v no_items, rest)
  unfolding parse_value skip_ws
  last_item v value end = ground (arith, value, end)

  pub next_item :
      (v : Json F) (vs : Items F) {b1 b2 : List ℕ}
      → parse_value f64 fuel b ≡ ok (v, b1)
      → round_end b']' (skip_ws b1) ≡ more b2
      → parse_items f64 fuel b2 ≡ ok (vs, rest)
      → parse_items f64 (suc fuel) b ≡ ok (item v vs, rest)
  unfolding parse_value skip_ws
  next_item v vs value end items = ground (arith, value, end, items)

  pub last_field :
      (k : List ℕ) (v : Json F) (a : List ℕ) {b1 : List ℕ}
      → parse_key a ≡ ok (k, b)
      → parse_value f64 fuel b ≡ ok (v, b1)
      → round_end b'}' (skip_ws b1) ≡ closed rest
      → parse_fields f64 (suc fuel) a ≡ ok (field k v no_fields, rest)
  unfolding parse_value skip_ws
  last_field k v a key value end = ground (arith, key, value, end)

  pub next_field :
      (k : List ℕ) (v : Json F) (fs : Fields F) (a : List ℕ) {b1 b2 : List ℕ}
      → parse_key a ≡ ok (k, b)
      → parse_value f64 fuel b ≡ ok (v, b1)
      → round_end b'}' (skip_ws b1) ≡ more b2
      → parse_fields f64 fuel b2 ≡ ok (fs, rest)
      → parse_fields f64 (suc fuel) a ≡ ok (field k v fs, rest)
  unfolding parse_value skip_ws
  next_field k v fs a key value end fields = ground (arith, key, value, end, fields)
