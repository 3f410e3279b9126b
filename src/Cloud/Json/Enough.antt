-- ===== src/Cloud/Json/Enough.antt =====
-- The fuel of the parser of crates/tpt-t-cloud/src/json.rs.
use tpt_teleop.Prelude.{
  ℕ, zero, suc, ◌+◌, ◌*◌, ◌<◌, ◌≤◌, ◌≡◌, refl, ap, arith, true, false, List, [], ◌∷◌, inl, inr, ◌⊎◌,
  length,
}
use tpt_teleop.Cloud.Json.{F64, Json, Items, Fields, null, bool, no_items, item, no_fields, field}
use tpt_teleop.Cloud.Json.Parse.{
  JsonError, Parsed, ok, err, trailing_data, bind, skip_ws, First, quote, brace, bracket, letter_t,
  letter_f, letter_n, numeric, other, first_of, more, closed, cut, bad, RoundEnd,
  unterminated_array, array_separator, unterminated_object, object_separator, parse_value,
  parse_items, parse_fields, finish, parse,
}
use tpt_teleop.Cloud.Json.Leaves.{
  Leaves, leaves, fails, Leaves-bind, Leaves-elim, RoundLeaves, goes_on, closes, cuts, breaks,
  round_end-RoundLeaves, after_byte-Fewer, parse_key-Leaves, number-Leaves, skip_ws_le,
  expect-Leaves, parse_string-Leaves, Leaves-le,
}

List-cases : (b : List ℕ) → (b ≡ []) ⊎ ((c : ℕ) × (rest : List ℕ) × (b ≡ c ∷ rest))
List-cases [] = inl refl
List-cases (c ∷ rest) = inr (c, rest, refl)

abbrev pub Answers : {A : Type 0} → Parsed A → Type 0
Answers {A} p = ((a : A) × (p ≡ ok a)) ⊎ ((e : JsonError) × (p ≡ err e))

module _ {F : Type 0} (f64 : F64 F) where
  abbrev ItemsLeave : ℕ → Type 0
  ItemsLeave fuel =
      (b : List ℕ) → suc (2 * length b) < fuel → Leaves (length b) (parse_items f64 fuel b)

  abbrev FieldsLeave : ℕ → Type 0
  FieldsLeave fuel =
      (b : List ℕ) → suc (2 * length b) < fuel → Leaves (length b) (parse_fields f64 fuel b)

  abbrev ValueLeaves : ℕ → Type 0
  ValueLeaves fuel = (b : List ℕ) → 2 * length b < fuel → Leaves (length b) (parse_value f64 fuel b)

  first-Leaves :
      (fuel c : ℕ) (b rest : List ℕ) (k : First)
      → skip_ws b ≡ c ∷ rest
      → first_of c ≡ k
      → suc (2 * length rest) < fuel
      → ItemsLeave fuel
      → FieldsLeave fuel
      → Leaves (suc (length rest)) (parse_value f64 (suc fuel) b)
  unfolding parse_value
  first-Leaves fuel c b rest quote e h room items fields =
      rw (parse_value, e, h) (Leaves-bind (parse_string-Leaves rest) λ _ less. leaves (omega arith))
  first-Leaves fuel c b rest brace e h room items fields =
      rw (parse_value, e, h)
        (Leaves-elim (after_byte-Fewer b'}' (skip_ws rest))
          (Leaves-bind (fields (skip_ws rest) (omega (arith, skip_ws_le rest)))
            λ _ less. leaves (omega (arith, skip_ws_le rest)))
          λ after less. leaves (omega (arith, skip_ws_le rest)))
  first-Leaves fuel c b rest bracket e h room items fields =
      rw (parse_value, e, h)
        (Leaves-elim (after_byte-Fewer b']' (skip_ws rest))
          (Leaves-bind (items (skip_ws rest) (omega (arith, skip_ws_le rest)))
            λ _ less. leaves (omega (arith, skip_ws_le rest)))
          λ after less. leaves (omega (arith, skip_ws_le rest)))
  first-Leaves fuel c b rest letter_t e h room items fields =
      rw (parse_value, e, h) (expect-Leaves b't' (b'r' ∷ b'u' ∷ b'e' ∷ []) (bool true) (c ∷ rest))
  first-Leaves fuel c b rest letter_f e h room items fields =
      rw (parse_value, e, h)
        (expect-Leaves b'f' (b'a' ∷ b'l' ∷ b's' ∷ b'e' ∷ []) (bool false) (c ∷ rest))
  first-Leaves fuel c b rest letter_n e h room items fields =
      rw (parse_value, e, h) (expect-Leaves b'n' (b'u' ∷ b'l' ∷ b'l' ∷ []) null (c ∷ rest))
  first-Leaves fuel c b rest numeric e h room items fields =
      rw (parse_value, e, h) (number-Leaves f64 c rest h)
  first-Leaves fuel c b rest other e h room items fields = rw (parse_value, e, h) fails

  value_leaves : (fuel : ℕ) → ItemsLeave fuel → FieldsLeave fuel → ValueLeaves (suc fuel)
  unfolding parse_value
  value_leaves fuel items fields b room = elim (List-cases (skip_ws b)) [
    | inl nothing ↦ rw (parse_value, nothing) fails
    | inr (c, rest, e) ↦
        let size : suc (length rest) ≤ length b = omega (arith, skip_ws_le b, ap length e) in
        Leaves-le size
          (first-Leaves fuel c b rest (first_of c) e refl (omega (arith, size)) items fields)
  ]

  item_rest :
      (fuel : ℕ) (b : List ℕ) (v : Json F) (k : RoundEnd)
      → RoundLeaves (length b) k
      → ItemsLeave fuel
      → suc (2 * length b) < fuel
      → Leaves {A = Items F} (length b) (elim k [
        | more b2 ↦ bind (parse_items f64 fuel b2) λ (vs, after). ok (item v vs, after)
        | closed b2 ↦ ok (item v no_items, b2)
        | cut ↦ err unterminated_array
        | bad ↦ err array_separator
      ])
  item_rest fuel b v _ (goes_on {rest} less) items room =
      Leaves-bind (items rest (omega arith)) λ _ fewer. leaves (omega arith)
  item_rest fuel b v _ (closes less) items room = leaves less
  item_rest fuel b v _ cuts items room = fails
  item_rest fuel b v _ breaks items room = fails

  items_leave : (fuel : ℕ) → ValueLeaves fuel → ItemsLeave fuel → ItemsLeave (suc fuel)
  unfolding parse_value
  items_leave fuel value items b room = Leaves-bind (value b (omega arith)) λ (v, b1) less.
      Leaves-le (omega (arith, skip_ws_le b1)) (
        item_rest fuel (skip_ws b1) v _ (round_end-RoundLeaves b']' (skip_ws b1)) items
          (omega (arith, skip_ws_le b1)))

  field_rest :
      (fuel : ℕ) (b : List ℕ) (k : List ℕ) (v : Json F) (end : RoundEnd)
      → RoundLeaves (length b) end
      → FieldsLeave fuel
      → suc (2 * length b) < fuel
      → Leaves {A = Fields F} (length b) (elim end [
        | more b3 ↦ bind (parse_fields f64 fuel b3) λ (fs, after). ok (field k v fs, after)
        | closed b3 ↦ ok (field k v no_fields, b3)
        | cut ↦ err unterminated_object
        | bad ↦ err object_separator
      ])
  field_rest fuel b k v _ (goes_on {rest} less) fields room =
      Leaves-bind (fields rest (omega arith)) λ _ fewer. leaves (omega arith)
  field_rest fuel b k v _ (closes less) fields room = leaves less
  field_rest fuel b k v _ cuts fields room = fails
  field_rest fuel b k v _ breaks fields room = fails

  fields_leave : (fuel : ℕ) → ValueLeaves fuel → FieldsLeave fuel → FieldsLeave (suc fuel)
  unfolding parse_value
  fields_leave fuel value fields b room = Leaves-bind (parse_key-Leaves b) λ (k, b1) less.
      Leaves-bind (value b1 (omega arith)) λ (v, b2) fewer.
        Leaves-le (omega (arith, skip_ws_le b2)) (
          field_rest fuel (skip_ws b2) k v _ (round_end-RoundLeaves b'}' (skip_ws b2)) fields
            (omega (arith, skip_ws_le b2)))

  all_leave : (fuel : ℕ) → ValueLeaves fuel × ItemsLeave fuel × FieldsLeave fuel
  all_leave zero = (
    λ b room. absurd (omega arith),
    λ b room. absurd (omega arith),
    λ b room. absurd (omega arith),
  )
  all_leave (suc fuel) =
      let (value, items, fields) = all_leave fuel in
      (value_leaves fuel items fields, items_leave fuel value items, fields_leave fuel value fields)

  finish_answers : (x : Json F × List ℕ) → Answers (finish f64 x)
  unfolding finish
  finish_answers (v, b) = elim (List-cases (skip_ws b)) [
    | inl nothing ↦ inl (v, rw (finish, nothing) refl)
    | inr (c, rest, e) ↦ inr (trailing_data, rw (finish, e) refl)
  ]

  answers : {n : ℕ} {p : Parsed (Json F × List ℕ)} → Leaves n p → Answers (bind p (finish f64))
  answers (leaves {a} {rest} h) = finish_answers (a, rest)
  answers (fails {e}) = inr (e, refl)

  -- `parse` ends for every input: with the fuel that it is given here, the descent runs to its answer,
  -- a value or an error.
  pub parse-Answers : (b : List ℕ) → Answers (parse f64 b)
  unfolding parse
  parse-Answers b = answers ((all_leave (2 * length b + 1)).0 b (omega arith))
