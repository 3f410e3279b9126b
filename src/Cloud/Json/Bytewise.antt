-- ===== src/Cloud/Json/Bytewise.antt =====
-- What crates/tpt-t-cloud/src/json.rs makes of a value that it writes and parses, and the values whose
-- numbers survive it.
use tpt_teleop.Cloud.Json.{
  F64, Json, Items, Fields, null, bool, num, str, arr, obj, no_items, item, no_fields, field,
}
use tpt_teleop.Cloud.Json.Strings.{bytes_of}
use tpt_teleop.Cloud.Json.Numbers.{Readable}

-- The value with the bytes of each text in place of its characters.
unfoldable mutual
  unfolding bytes_of

  pub bytewise : {F : Type 0} → Json F → Json F
  bytewise null = null
  bytewise (bool b) = bool b
  bytewise (num n) = num n
  bytewise (str s) = str (bytes_of s)
  bytewise (arr items) = arr (bytewise_items items)
  bytewise (obj fields) = obj (bytewise_fields fields)

  pub bytewise_items : {F : Type 0} → Items F → Items F
  bytewise_items no_items = no_items
  bytewise_items (item v items) = item (bytewise v) (bytewise_items items)

  pub bytewise_fields : {F : Type 0} → Fields F → Fields F
  bytewise_fields no_fields = no_fields
  bytewise_fields (field k v fields) = field (bytes_of k) (bytewise v) (bytewise_fields fields)

module _ {F : Type 0} (f64 : F64 F) where
  -- Every number in the value is readable.
  unfoldable mutual
    pub IsReadable : Json F → Type 0
    IsReadable (num n) = Readable f64 n
    IsReadable (arr items) = AreReadable items
    IsReadable (obj fields) = HaveReadable fields
    IsReadable _ = Unit

    pub AreReadable : Items F → Type 0
    AreReadable no_items = Unit
    AreReadable (item v items) = IsReadable v × AreReadable items

    pub HaveReadable : Fields F → Type 0
    HaveReadable no_fields = Unit
    HaveReadable (field k v fields) = IsReadable v × HaveReadable fields
