-- ===== src/Cloud/Json/RoundTrip.antt =====
-- What crates/tpt-t-cloud/src/json.rs writes, parsed again.
use tpt_teleop.Prelude.{
  ℕ, zero, suc, ◌+◌, ◌*◌, ◌<◌, ◌≡◌, refl, sym, ap, subst, ◌∙◌, arith, true, false, none, List, [],
  ◌∷◌, ◌++◌, append_assoc, append-nil, length, length-append, ◌==◌,
}
use tpt_teleop.Cloud.Json.{
  F64, Json, Items, Fields, null, bool, num, str, arr, obj, no_items, item, no_fields, field,
  write_num, write_json_string, write, write_items, write_fields,
}
use tpt_teleop.Cloud.Json.Parse.{
  ok, is_ws, first_of, numeric, skip_ws, after_byte, round_end, parse_key, parse_number,
  parse_value, parse_items, parse_fields, finish, parse,
}
use tpt_teleop.Cloud.Json.Bytewise.{
  bytewise, bytewise_items, bytewise_fields, IsReadable, AreReadable, HaveReadable,
}
use tpt_teleop.Cloud.Json.Steps.{
  array_step, object_step, last_item, next_item, last_field, next_field,
}
use tpt_teleop.Cloud.Json.Strings.{bytes_of, parse_string-write_chars}
use tpt_teleop.Cloud.Json.Numbers.{Stops, decimal_opens, parse_number-write_num}

length-append_bytes : (a b : List ℕ) → length (a ++ b) ≡ length a + length b
length-append_bytes a b = length-append a b

ruleset lengths = (arith, length-append_bytes)

module _ {F : Type 0} (f64 : F64 F) where
  -- The first byte of a text is not a space, nor the end of an array.
  abbrev Opens : List ℕ → Type 0
  Opens [] = ⊥
  Opens (c ∷ b) = (is_ws c ≡ false) × ((c == b']') ≡ false)

  Opens-append : (a b : List ℕ) → Opens a → Opens (a ++ b)
  Opens-append [] b h = elim h [ ]
  Opens-append (c ∷ a) b h = h

  skip-Opens : (b : List ℕ) → Opens b → skip_ws b ≡ b
  unfolding skip_ws
  skip-Opens [] h = refl
  skip-Opens (c ∷ b) h = rw (h.0) refl

  no_end : (b : List ℕ) → Opens b → after_byte b']' (skip_ws b) ≡ none
  unfolding skip_ws after_byte
  no_end [] h = refl
  no_end (c ∷ b) h = rw (h.0, h.1) refl

  write-Opens : (v : Json F) → IsReadable f64 v → Opens (write f64 v)
  unfolding write write_json_string IsReadable
  write-Opens (num n) r =
      let (c, t, spelled, _, space, end) = decimal_opens (write_num f64 n) r.decimal in
      subst Opens (sym spelled) (space, end)
  write-Opens (bool true) r = (refl, refl)
  write-Opens (bool false) r = (refl, refl)
  write-Opens _ r = (refl, refl)

  numeric_lem :
      (fuel : ℕ) (text : List ℕ) (c : ℕ) (b : List ℕ)
      → text ≡ c ∷ b
      → first_of c ≡ numeric
      → is_ws c ≡ false
      → parse_value f64 (suc fuel) text ≡ parse_number f64 text
  unfolding parse_value skip_ws
  numeric_lem fuel text c b e first space = rw (e, parse_value, skip_ws, space, first) refl

  items_stop : (vs : Items F) (rest : List ℕ) → Stops (write_items f64 vs false ++ b']' ∷ rest)
  unfolding write
  items_stop no_items rest = refl
  items_stop (item v vs) rest = refl

  fields_stop : (fs : Fields F) (rest : List ℕ) → Stops (write_fields f64 fs false ++ b'}' ∷ rest)
  unfolding write
  fields_stop no_fields rest = refl
  fields_stop (field k v fs) rest = refl

  -- The bytes of a key with its colon, before anything.
  key_lem : (k b : List ℕ) → parse_key (write_json_string k ++ b':' ∷ b) ≡ ok (bytes_of k, b)
  unfolding parse_key write_json_string skip_ws after_byte
  key_lem k b = rw (append_assoc, parse_string-write_chars k (b':' ∷ b)) refl

  -- With fuel above `bound`, the first element's text and what follows are read as the elements.
  abbrev ReadsItems : Items F → Type 0
  ReadsItems no_items = Unit
  ReadsItems (item v vs) =
      (fuel : ℕ) (rest : List ℕ)
      → AreReadable f64 (item v vs)
      → suc (2 * length (write_items f64 (item v vs) true)) < fuel
      → parse_items f64 fuel (write_items f64 (item v vs) true ++ b']' ∷ rest)
        ≡ ok (bytewise_items (item v vs), rest)

  abbrev ReadsFields : Fields F → Type 0
  ReadsFields no_fields = Unit
  ReadsFields (field k v fs) =
      (fuel : ℕ) (rest : List ℕ)
      → HaveReadable f64 (field k v fs)
      → suc (2 * length (write_fields f64 (field k v fs) true)) < fuel
      → parse_fields f64 fuel (write_fields f64 (field k v fs) true ++ b'}' ∷ rest)
        ≡ ok (bytewise_fields (field k v fs), rest)

  abbrev ReadsValue : Json F → Type 0
  ReadsValue v =
      (fuel : ℕ) (rest : List ℕ)
      → IsReadable f64 v
      → Stops rest
      → 2 * length (write f64 v) < fuel
      → parse_value f64 fuel (write f64 v ++ rest) ≡ ok (bytewise v, rest)

  number_lem : (n : F) → ReadsValue (num n)
  unfolding write IsReadable bytewise
  number_lem n zero rest r stop h = absurd (omega arith)
  number_lem n (suc fuel) rest r stop h =
      let (c, t, e, first, space, _) = decimal_opens (write_num f64 n) r.decimal in
      let starts = ap (λ (b : List ℕ). b ++ rest) e in
      numeric_lem fuel (write_num f64 n ++ rest) c (t ++ rest) starts first space
      ∙ parse_number-write_num f64 n rest r stop

  string_lem : (s : List ℕ) → ReadsValue (str s)
  unfolding write write_json_string parse_value bytewise skip_ws
  string_lem s zero rest r stop h = absurd (omega arith)
  string_lem s (suc fuel) rest r stop h = rw (append_assoc, parse_string-write_chars s rest) refl

  -- A value that is written without another value in it.
  constant_lem :
      (v : Json F)
      → ((fuel : ℕ) (rest : List ℕ)
          → parse_value f64 (suc fuel) (write f64 v ++ rest) ≡ ok (bytewise v, rest))
      → ReadsValue v
  constant_lem v read zero rest r stop h = absurd (omega arith)
  constant_lem v read (suc fuel) rest r stop h = read fuel rest

  array_lem : (v : Json F) (vs : Items F) → ReadsItems (item v vs) → ReadsValue (arr (item v vs))
  unfolding write IsReadable bytewise
  array_lem v vs ih zero rest r stop h = absurd (omega arith)
  array_lem v vs ih (suc fuel) rest r stop h =
      let text = write f64 v ++ write_items f64 vs false in
      let b = text ++ b']' ∷ rest in
      let opens : Opens b =
        Opens-append text (b']' ∷ rest) (Opens-append (write f64 v) _ (write-Opens v r.0)) in
      let items = ih fuel rest r (omega (lengths, length-append_bytes text (b']' ∷ []))) in
      ap (λ (t : List ℕ). parse_value f64 (suc fuel) (b'[' ∷ t))
        (append_assoc text (b']' ∷ []) rest)
      ∙ array_step f64 fuel b rest _ (no_end b opens)
          (ap (parse_items f64 fuel) (skip-Opens b opens) ∙ items)

  object_lem :
      (k : List ℕ) (v : Json F) (fs : Fields F)
      → ReadsFields (field k v fs)
      → ReadsValue (obj (field k v fs))
  unfolding write IsReadable bytewise write_json_string skip_ws after_byte
  object_lem k v fs ih zero rest r stop h = absurd (omega arith)
  object_lem k v fs ih (suc fuel) rest r stop h =
      let text = write_fields f64 (field k v fs) true in
      ap (λ (t : List ℕ). parse_value f64 (suc fuel) (b'{' ∷ t))
        (append_assoc text (b'}' ∷ []) rest)
      ∙ object_step f64 fuel (text ++ b'}' ∷ rest) rest _ refl
          (ih fuel rest r (omega (lengths, length-append_bytes text (b'}' ∷ []))))

  item_lem : (v : Json F) (vs : Items F) → ReadsValue v → ReadsItems vs → ReadsItems (item v vs)
  unfolding write IsReadable bytewise skip_ws round_end
  item_lem v vs ihv ih zero rest r h = absurd (omega arith)
  item_lem v no_items ihv ih (suc fuel) rest r h =
      let b = write f64 v ++ b']' ∷ rest in
      let text = ap (λ t. t ++ b']' ∷ rest) (append-nil (write f64 v)) in
      ap (parse_items f64 (suc fuel)) text
      ∙ last_item f64 fuel b rest (bytewise v)
          (ihv fuel (b']' ∷ rest) r.0 refl (omega (arith, length-append_bytes (write f64 v) [])))
          refl
  item_lem v (item w ws) ihv ih (suc fuel) rest r h =
      let after = write_items f64 (item w ws) false in
      let value =
        ihv fuel (after ++ b']' ∷ rest) r.0 refl
          (omega (arith, length-append_bytes (write f64 v) after)) in
      let items = ih fuel rest r.1 (omega (arith, length-append_bytes (write f64 v) after)) in
      ap (parse_items f64 (suc fuel)) (append_assoc (write f64 v) after (b']' ∷ rest))
      ∙ next_item f64 fuel _ rest (bytewise v) (bytewise_items (item w ws)) value refl items

  field_lem :
      (k : List ℕ) (v : Json F) (fs : Fields F)
      → ReadsValue v
      → ReadsFields fs
      → ReadsFields (field k v fs)
  unfolding write IsReadable bytewise skip_ws round_end
  field_lem k v fs ihv ih zero rest r h = absurd (omega arith)
  field_lem k v no_fields ihv ih (suc fuel) rest r h =
      let b = write f64 v ++ b'}' ∷ rest in
      let text : write_fields f64 (field k v no_fields) true ++ b'}' ∷ rest
          ≡ write_json_string k ++ b':' ∷ b =
        simp (append_assoc, append-nil) in
      let sizes = length-append_bytes (write_json_string k) (b':' ∷ (write f64 v ++ [])) in
      ap (parse_fields f64 (suc fuel)) text
      ∙ last_field f64 fuel b rest (bytes_of k) (bytewise v) _ (key_lem k b)
          (ihv fuel (b'}' ∷ rest) r.0 refl
            (omega (arith, sizes, length-append_bytes (write f64 v) [])))
          refl
  field_lem k v (field j w ws) ihv ih (suc fuel) rest r h =
      let after = write_fields f64 (field j w ws) false in
      let b = write f64 v ++ (after ++ b'}' ∷ rest) in
      let text : write_fields f64 (field k v (field j w ws)) true ++ b'}' ∷ rest
          ≡ write_json_string k ++ b':' ∷ b =
        simp append_assoc in
      let sizes = length-append_bytes (write_json_string k) (b':' ∷ (write f64 v ++ after)) in
      let value =
        ihv fuel (after ++ b'}' ∷ rest) r.0 refl
          (omega (arith, sizes, length-append_bytes (write f64 v) after)) in
      let fields =
        ih fuel rest r.1 (omega (arith, sizes, length-append_bytes (write f64 v) after)) in
      ap (parse_fields f64 (suc fuel)) text
      ∙ next_field f64 fuel b rest (bytes_of k) (bytewise v) (bytewise_fields (field j w ws)) _
          (key_lem k b) value refl fields

  mutual
    unfolding write parse_value bytewise IsReadable

    value_lem : (v : Json F) → ReadsValue v
    value_lem null = constant_lem null (λ fuel rest. refl)
    value_lem (bool true) = constant_lem (bool true) (λ fuel rest. refl)
    value_lem (bool false) = constant_lem (bool false) (λ fuel rest. refl)
    value_lem (num n) = number_lem n
    value_lem (str s) = string_lem s
    value_lem (arr no_items) = constant_lem (arr no_items) (λ fuel rest. refl)
    value_lem (arr (item v vs)) = array_lem v vs (items_lem (item v vs))
    value_lem (obj no_fields) = constant_lem (obj no_fields) (λ fuel rest. refl)
    value_lem (obj (field k v fs)) = object_lem k v fs (fields_lem (field k v fs))

    items_lem : (vs : Items F) → ReadsItems vs
    items_lem no_items = tt
    items_lem (item v vs) = item_lem v vs (value_lem v) (items_lem vs)

    fields_lem : (fs : Fields F) → ReadsFields fs
    fields_lem no_fields = tt
    fields_lem (field k v fs) = field_lem k v fs (value_lem v) (fields_lem fs)

  -- A value whose numbers are readable is parsed back from what was written, with the bytes of each
  -- text in place of its characters.
  pub parse-write : (v : Json F) → IsReadable f64 v → parse f64 (write f64 v) ≡ ok (bytewise v)
  unfolding parse finish skip_ws
  parse-write v r =
      let whole = value_lem v (2 * length (write f64 v) + 1) [] r tt (omega arith) in
      rw (rw append-nil at whole) refl
