-- ===== src/Cloud/Json.antt =====
-- crates/tpt-t-cloud/src/json.rs: JSON values and how they are written. A string is the list of its
-- code points, and text that is written the list of its bytes. A type `F` stands for `f64`.
use tpt_teleop.Prelude.{
  ℕ, zero, suc, ◌+◌, ◌-◌, ◌*◌, ◌/◌, ◌%◌, Bool, true, false, ◌&&◌, Option, none, some, List, [], ◌∷◌,
  ◌++◌, map, ltb, ◌==◌, if◌then◌else◌,
}
pub mod Parse
pub mod Strings
pub mod Numbers
pub mod Bytewise
pub mod Steps
pub mod RoundTrip
pub mod Ascii
pub mod Leaves
pub mod Enough
mod Tests

-- What the code asks of `f64`: the three tests of `write`, the two formats, `parse`, and the casts
-- from and to `u64`.
pub record F64 (F : Type 0) : Type 0 where
  pub is_finite : F → Bool
  pub fract_is_zero : F → Bool
  pub abs_below_1e15 : F → Bool
  pub format_as_i64 : F → List ℕ
  pub format : F → List ℕ
  pub parse_f64 : List ℕ → Option F
  pub of_u64 : ℕ → F
  pub to_u64 : F → ℕ

-- `Items` and `Fields` are the vectors in an array and in an object.
mutual
  pub data Json (F : Type 0) : Type 0 where
    null : Json F
    bool : Bool → Json F
    num : F → Json F
    str : List ℕ → Json F
    arr : Items F → Json F
    obj : Fields F → Json F

  pub data Items (F : Type 0) : Type 0 where
    no_items : Items F
    item : Json F → Items F → Items F

  pub data Fields (F : Type 0) : Type 0 where
    no_fields : Fields F
    field : List ℕ → Json F → Fields F → Fields F

-- The UTF-8 bytes of a code point.
unfoldable pub utf8 : ℕ → List ℕ
utf8 c =
    if ltb c 0x80
    then c ∷ []
    else if ltb c 0x800
    then (0xC0 + c / 64) ∷ (0x80 + c % 64) ∷ []
    else if ltb c 0x10000
    then (0xE0 + c / 4096) ∷ (0x80 + c / 64 % 64) ∷ (0x80 + c % 64) ∷ []
    else (0xF0 + c / 262144) ∷ (0x80 + c / 4096 % 64) ∷ (0x80 + c / 64 % 64) ∷ (0x80 + c % 64) ∷ []

-- A digit of `{:04x}`.
abbrev pub hex_digit : ℕ → ℕ
hex_digit d = if ltb d 10 then b'0' + d else b'a' + (d - 10)

-- `\u{:04x}` of a control character.
unfoldable pub u_escape : ℕ → List ℕ
u_escape c =
    b'\\'
    ∷ b'u'
    ∷ hex_digit (c / 4096 % 16)
    ∷ hex_digit (c / 256 % 16)
    ∷ hex_digit (c / 16 % 16)
    ∷ hex_digit (c % 16)
    ∷ []

unfoldable pub write_char : ℕ → List ℕ
unfolding utf8 u_escape
write_char c =
    if c == b'"'
    then b'\\' ∷ b'"' ∷ []
    else if c == b'\\'
    then b'\\' ∷ b'\\' ∷ []
    else if c == 10
    then b'\\' ∷ b'n' ∷ []
    else if c == 13
    then b'\\' ∷ b'r' ∷ []
    else if c == 9
    then b'\\' ∷ b't' ∷ []
    else if c == 8
    then b'\\' ∷ b'b' ∷ []
    else if c == 12
    then b'\\' ∷ b'f' ∷ []
    else if ltb c 0x20
    then u_escape c
    else utf8 c

unfoldable pub write_chars : List ℕ → List ℕ
unfolding write_char
write_chars [] = []
write_chars (c ∷ s) = write_char c ++ write_chars s

unfoldable pub write_json_string : List ℕ → List ℕ
unfolding write_chars
write_json_string s = b'"' ∷ (write_chars s ++ b'"' ∷ [])

-- The comma before every element but the first.
abbrev pub separator : Bool → List ℕ
separator first = if first then [] else b',' ∷ []

module _ {F : Type 0} (f64 : F64 F) where
  unfoldable pub write_num : F → List ℕ
  write_num n =
      if f64.is_finite n && f64.fract_is_zero n && f64.abs_below_1e15 n
      then f64.format_as_i64 n
      else f64.format n

  unfoldable mutual
    unfolding write_num write_json_string

    pub write : Json F → List ℕ
    write null = b'n' ∷ b'u' ∷ b'l' ∷ b'l' ∷ []
    write (bool true) = b't' ∷ b'r' ∷ b'u' ∷ b'e' ∷ []
    write (bool false) = b'f' ∷ b'a' ∷ b'l' ∷ b's' ∷ b'e' ∷ []
    write (num n) = write_num n
    write (str s) = write_json_string s
    write (arr items) = b'[' ∷ (write_items items true ++ b']' ∷ [])
    write (obj fields) = b'{' ∷ (write_fields fields true ++ b'}' ∷ [])

    pub write_items : Items F → Bool → List ℕ
    write_items no_items first = []
    write_items (item v items) first = separator first ++ (write v ++ write_items items false)

    pub write_fields : Fields F → Bool → List ℕ
    write_fields no_fields first = []
    write_fields (field k v fields) first =
        separator first ++ (write_json_string k ++ b':' ∷ (write v ++ write_fields fields false))

-- `k == key`
unfoldable pub same_text : List ℕ → List ℕ → Bool
same_text [] [] = true
same_text (c ∷ s) (d ∷ t) = c == d && same_text s t
same_text _ _ = false

module _ {F : Type 0} where
  unfoldable pub of_pairs : List (List ℕ × Json F) → Fields F
  of_pairs [] = no_fields
  of_pairs ((k, v) ∷ fields) = field k v (of_pairs fields)

  -- `Json::obj`
  unfoldable pub object : List (List ℕ × Json F) → Json F
  unfolding of_pairs
  object fields = obj (of_pairs fields)

  unfoldable pub obj_str : List (List ℕ × List ℕ) → Json F
  unfolding object
  obj_str fields = object (map (λ (k, v). (k, str v)) fields)

  unfoldable pub obj_num : List (List ℕ × F) → Json F
  unfolding object
  obj_num fields = object (map (λ (k, v). (k, num v)) fields)

  unfoldable pub uint : F64 F → ℕ → Json F
  uint f64 n = num (f64.of_u64 n)

  unfoldable pub find : List ℕ → Fields F → Option (Json F)
  unfolding same_text
  find key no_fields = none
  find key (field k v fields) =
      let rest = find key fields in if same_text k key then some v else rest

  unfoldable pub get : List ℕ → Json F → Option (Json F)
  unfolding find
  get key (obj fields) = find key fields
  get key _ = none

  unfoldable pub as_str : Json F → Option (List ℕ)
  as_str (str s) = some s
  as_str _ = none

  unfoldable pub as_u64 : F64 F → Json F → Option ℕ
  as_u64 f64 (num n) = some (f64.to_u64 n)
  as_u64 f64 _ = none

  unfoldable pub as_bool : Json F → Option Bool
  as_bool (bool b) = some b
  as_bool _ = none

  unfoldable pub as_array : Json F → Option (Items F)
  as_array (arr items) = some items
  as_array _ = none
