-- ===== src/Sec/Wire.antt =====
-- An attestation of crates/tpt-t-sec/src/identity.rs survives the wire.
use tpt_teleop.Prelude.{
  ℕ, ◌+◌, ◌^◌, ◌<◌, ◌≡◌, refl, ◌∙◌, ap, arith, false, ◌∷◌, ◌++◌, length, length-append, take, drop,
  take_all, ltb,
}
use tpt_teleop.Prelude.Bytes.{
  to_le_bytes, from_le_bytes, length-to_le_bytes, from_le_bytes-to_le_bytes, take-append,
  drop-append,
}
use tpt_teleop.Sec.Rbac.{Role, guest, observer, operator, admin, ai_agent}
use tpt_teleop.Sec.Identity.{
  ok, signing_pub_len, agreement_pub_len, signature_len, attestation_wire_len, role_byte,
  role_from_byte, Attestation, to_bytes, from_bytes, first,
}

-- The fields of an attestation have their lengths.
pub record IsSized (a : Attestation) : Type 0 where
  pub unit_id : a.unit_id < 2 ^ 64
  pub signing_pub : length a.signing_pub ≡ signing_pub_len
  pub eph_pub : length a.eph_pub ≡ agreement_pub_len
  pub sig : length a.sig ≡ signature_len

role_from_byte-role_byte : (r : Role) → role_from_byte (role_byte r) ≡ r
unfolding role_from_byte role_byte
role_from_byte-role_byte guest = refl
role_from_byte-role_byte observer = refl
role_from_byte-role_byte operator = refl
role_from_byte-role_byte admin = refl
role_from_byte-role_byte ai_agent = refl

length_lem : (a : Attestation) → IsSized a → length (to_bytes a) ≡ attestation_wire_len
unfolding to_bytes
length_lem a z =
    let le : length (to_le_bytes 8 a.unit_id) ≡ 8 = length-to_le_bytes 8 a.unit_id in
    let whole =
      length-append (to_le_bytes 8 a.unit_id)
        (role_byte a.role ∷ (a.signing_pub ++ (a.eph_pub ++ a.sig))) in
    let key = length-append a.signing_pub (a.eph_pub ++ a.sig) in
    let rest = length-append a.eph_pub a.sig in
    omega (arith, le, whole, key, rest, z.signing_pub, z.eph_pub, z.sig)

module _ (a : Attestation) (z : IsSized a) where
  after_id :
      (k : ℕ)
      → drop (8 + k) (to_bytes a)
        ≡ drop k (role_byte a.role ∷ (a.signing_pub ++ (a.eph_pub ++ a.sig)))
  unfolding to_bytes
  after_id k =
      drop-append 8 k (to_le_bytes 8 a.unit_id)
        (role_byte a.role ∷ (a.signing_pub ++ (a.eph_pub ++ a.sig)))
        (length-to_le_bytes 8 a.unit_id)

  after_keys : drop 73 (to_bytes a) ≡ a.sig
  after_keys =
      after_id 65
      ∙ drop-append 32 32 a.signing_pub (a.eph_pub ++ a.sig) z.signing_pub
      ∙ drop-append 32 0 a.eph_pub a.sig z.eph_pub

  id_read : from_le_bytes (take 8 (to_bytes a)) ≡ a.unit_id
  unfolding to_bytes
  id_read =
      ap from_le_bytes (
        take-append 8 (to_le_bytes 8 a.unit_id)
          (role_byte a.role ∷ (a.signing_pub ++ (a.eph_pub ++ a.sig)))
          (length-to_le_bytes 8 a.unit_id))
      ∙ from_le_bytes-to_le_bytes 8 a.unit_id (omega (arith, z.unit_id))

  -- Reading the bytes that an attestation is written as gives the attestation.
  pub from_bytes-to_bytes : from_bytes (to_bytes a) ≡ ok a
  unfolding from_bytes
  from_bytes-to_bytes =
      let role : role_from_byte (first (drop 8 (to_bytes a))) ≡ a.role =
        ap (λ l. role_from_byte (first l)) (after_id 0) ∙ role_from_byte-role_byte a.role in
      let key : take 32 (drop 9 (to_bytes a)) ≡ a.signing_pub =
        ap (take 32) (after_id 1)
        ∙ take-append 32 a.signing_pub (a.eph_pub ++ a.sig) z.signing_pub in
      let eph : take 32 (drop 41 (to_bytes a)) ≡ a.eph_pub =
        ap (take 32)
          (after_id 33 ∙ drop-append 32 0 a.signing_pub (a.eph_pub ++ a.sig) z.signing_pub)
        ∙ take-append 32 a.eph_pub a.sig z.eph_pub in
      let sig : take 64 (drop 73 (to_bytes a)) ≡ a.sig =
        ap (take 64) after_keys ∙ take_all 64 a.sig (omega (arith, z.sig)) in
      let long : ltb (length (to_bytes a)) attestation_wire_len ≡ false =
        rw (length_lem a z) refl in
      rw long (λ i. ok (record {
        unit_id = id_read i;
        role = role i;
        signing_pub = key i;
        eph_pub = eph i;
        sig = sig i;
      }))
