-- ===== src/Sec/Identity.antt =====
-- `Attestation` of crates/tpt-t-sec/src/identity.rs, with its bytes on the wire. The signature scheme is
-- a parameter.
use tpt_teleop.Prelude.{
  ℕ, ◌+◌, Bool, List, [], ◌∷◌, ◌++◌, length, take, drop, ltb, ◌==◌, if◌then◌else◌,
}
use tpt_teleop.Prelude.Bytes.{to_le_bytes, from_le_bytes}
use tpt_teleop.Sec.Rbac.{Role, guest, observer, operator, admin, ai_agent}

pub data SecError : Type 0 where
  invalid_key_length crypto key_gen attestation_failed buffer_too_small ring_full : SecError
  serialize unknown_unit : SecError
  handshake : List ℕ → SecError

pub data Result {ℓ} (A : Type ℓ) : Type ℓ where
  ok : A → Result A
  err : SecError → Result A

abbrev pub signing_pub_len : ℕ
signing_pub_len = 32

abbrev pub agreement_pub_len : ℕ
agreement_pub_len = 32

abbrev pub signature_len : ℕ
signature_len = 64

abbrev pub attestation_wire_len : ℕ
attestation_wire_len = 8 + 1 + signing_pub_len + agreement_pub_len + signature_len

unfoldable pub role_byte : Role → ℕ
role_byte guest = 0
role_byte observer = 1
role_byte operator = 2
role_byte admin = 3
role_byte ai_agent = 4

unfoldable pub role_from_byte : ℕ → Role
role_from_byte b =
    if b == 0
    then guest
    else if b == 1
    then observer
    else if b == 2
    then operator
    else if b == 3
    then admin
    else if b == 4
    then ai_agent
    else guest

pub record Attestation : Type 0 where
  pub unit_id : ℕ
  pub role : Role
  pub signing_pub : List ℕ
  pub eph_pub : List ℕ
  pub sig : List ℕ

unfoldable pub signed_message : ℕ → Role → List ℕ → List ℕ
unfolding to_le_bytes role_byte
signed_message unit_id role eph_pub = to_le_bytes 8 unit_id ++ role_byte role ∷ [] ++ eph_pub

unfoldable pub to_bytes : Attestation → List ℕ
unfolding to_le_bytes role_byte
to_bytes a = to_le_bytes 8 a.unit_id ++ (role_byte a.role ∷ (a.signing_pub ++ (a.eph_pub ++ a.sig)))

-- The first byte, where there is one.
abbrev pub first : List ℕ → ℕ
first [] = 0
first (b ∷ bs) = b

unfoldable pub from_bytes : List ℕ → Result Attestation
unfolding from_le_bytes role_from_byte
from_bytes bytes =
    if ltb (length bytes) attestation_wire_len
    then err serialize
    else ok (record {
      unit_id = from_le_bytes (take 8 bytes);
      role = role_from_byte (first (drop 8 bytes));
      signing_pub = take signing_pub_len (drop 9 bytes);
      eph_pub = take agreement_pub_len (drop (9 + signing_pub_len) bytes);
      sig = take signature_len (drop (9 + signing_pub_len + agreement_pub_len) bytes);
    })

-- The scheme of the `ed25519-dalek` crate: whether a key of these bytes is valid and verifies the
-- message with the signature.
module _ (verifies : List ℕ → List ℕ → List ℕ → Bool) where
  unfoldable pub verify : Attestation → Bool
  unfolding signed_message
  verify a = verifies a.signing_pub (signed_message a.unit_id a.role a.eph_pub) a.sig
