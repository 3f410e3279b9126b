-- ===== src/Cloud/Json/Ascii.antt =====
-- Values of crates/tpt-t-cloud/src/json.rs with ASCII texts only.
use tpt_teleop.Prelude.{ℕ, ◌<◌, ◌≡◌, ap, ap₂, refl, ◌∙◌, List, All}
use tpt_teleop.Cloud.Json.{
  F64, Json, Items, Fields, null, bool, num, str, arr, obj, no_items, item, no_fields, field, write,
}
use tpt_teleop.Cloud.Json.Parse.{ok, parse}
use tpt_teleop.Cloud.Json.Strings.{bytes_of_ascii}
use tpt_teleop.Cloud.Json.Bytewise.{bytewise, bytewise_items, bytewise_fields, IsReadable}
use tpt_teleop.Cloud.Json.RoundTrip.{parse-write}

abbrev pub AsciiText : List ℕ → Type 0
AsciiText s = All (λ c. c < 0x80) s

unfoldable mutual
  pub IsAscii : {F : Type 0} → Json F → Type 0
  IsAscii (str s) = AsciiText s
  IsAscii (arr items) = AreAscii items
  IsAscii (obj fields) = HaveAscii fields
  IsAscii _ = Unit

  pub AreAscii : {F : Type 0} → Items F → Type 0
  AreAscii no_items = Unit
  AreAscii (item v items) = IsAscii v × AreAscii items

  pub HaveAscii : {F : Type 0} → Fields F → Type 0
  HaveAscii no_fields = Unit
  HaveAscii (field k v fields) = AsciiText k × IsAscii v × HaveAscii fields

mutual
  unfolding bytewise IsAscii

  bytewise_ascii : {F : Type 0} (v : Json F) → IsAscii v → bytewise v ≡ v
  bytewise_ascii null h = refl
  bytewise_ascii (bool b) h = refl
  bytewise_ascii (num n) h = refl
  bytewise_ascii (str s) h = ap str (bytes_of_ascii s h)
  bytewise_ascii (arr items) h = ap arr (items_ascii items h)
  bytewise_ascii (obj fields) h = ap obj (fields_ascii fields h)

  items_ascii : {F : Type 0} (vs : Items F) → AreAscii vs → bytewise_items vs ≡ vs
  items_ascii no_items h = refl
  items_ascii (item v vs) h = ap₂ item (bytewise_ascii v h.0) (items_ascii vs h.1)

  fields_ascii : {F : Type 0} (fs : Fields F) → HaveAscii fs → bytewise_fields fs ≡ fs
  fields_ascii no_fields h = refl
  fields_ascii (field k v fs) h =
      rw (bytes_of_ascii k h.0, bytewise_ascii v h.1, fields_ascii fs h.2) refl

-- A value whose numbers are readable and whose texts are ASCII is parsed back from what was written.
pub parse-write_ascii :
    {F : Type 0} (f64 : F64 F) (v : Json F)
    → IsReadable f64 v
    → IsAscii v
    → parse f64 (write f64 v) ≡ ok v
parse-write_ascii f64 v r h = parse-write f64 v r ∙ ap ok (bytewise_ascii v h)
