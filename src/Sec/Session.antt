-- ===== src/Sec/Session.antt =====
-- crates/tpt-t-sec/src/session.rs, and the identities of identity.rs that sign its messages. The crates
-- for signatures, key agreement and key derivation are parameters, and so is what `getrandom` gives.
use tpt_teleop.Prelude.{ℕ, Bool, true, false, Option, none, some, List, [], ◌∷◌, if◌then◌else◌}
use tpt_teleop.Sec.Rbac.{Role}
use tpt_teleop.Sec.Identity.{
  SecError, key_gen, attestation_failed, handshake, Result, ok, err, Attestation, signed_message,
  verify,
}
use tpt_teleop.Sec.Cipher.{CipherSuite, negotiate, Aead, CryptoBox, new, seal_to_vec, open_into}
pub mod Agreement
mod Tests

-- `ed25519-dalek`, with a signing key as its seed: the bytes of the public key, signing, and whether a
-- public key of these bytes is valid and verifies the message with the signature; and
-- `x25519-dalek`: the public key of a secret and the shared secret; and `hkdf`: the 32 bytes that
-- it expands a secret to.
pub record Primitives : Type 0 where
  pub verifying_key : List ℕ → List ℕ
  pub sign : List ℕ → List ℕ → List ℕ
  pub verifies : List ℕ → List ℕ → List ℕ → Bool
  pub public_key : List ℕ → List ℕ
  pub diffie_hellman : List ℕ → List ℕ → List ℕ
  pub expand : List ℕ → List ℕ → List ℕ

pub record DeviceIdentity : Type 0 where
  pub unit_id : ℕ
  pub role : Role
  pub signing : List ℕ
  pub signing_pub : List ℕ

pub record HandshakeInit : Type 0 where
  pub attestation : Attestation
  pub suites : List CipherSuite

pub record HandshakeResp : Type 0 where
  pub attestation : Attestation
  pub suite : CipherSuite

pub record PendingHandshake : Type 0 where
  pub eph : List ℕ

pub record SecureSession (A C : Type 0) : Type 0 where
  pub peer_id : ℕ
  pub peer_role : Role
  pub crypto_box : CryptoBox A C
  pub suite : CipherSuite

-- b"tpt-teleop-sec-v1"
abbrev pub hkdf_info : List ℕ
hkdf_info =
    b't' ∷ b'p' ∷ b't' ∷ b'-' ∷ b't' ∷ b'e' ∷ b'l' ∷ b'e' ∷ b'o' ∷ b'p' ∷ b'-' ∷ b's' ∷ b'e' ∷ b'c'
    ∷ b'-' ∷ b'v' ∷ b'1' ∷ []

-- "no common cipher suite"
abbrev pub no_common_suite : List ℕ
no_common_suite =
    b'n' ∷ b'o' ∷ b' ' ∷ b'c' ∷ b'o' ∷ b'm' ∷ b'm' ∷ b'o' ∷ b'n' ∷ b' ' ∷ b'c' ∷ b'i' ∷ b'p' ∷ b'h'
    ∷ b'e' ∷ b'r' ∷ b' ' ∷ b's' ∷ b'u' ∷ b'i' ∷ b't' ∷ b'e' ∷ []

-- `?` and `map_err`.
abbrev pub then_ok {ℓ κ} : {A : Type ℓ} {B : Type κ} → Result A → (A → Result B) → Result B
then_ok (ok a) f = f a
then_ok (err e) f = err e

abbrev pub random_or_err : Option (List ℕ) → Result (List ℕ)
random_or_err none = err key_gen
random_or_err (some bytes) = ok bytes

module _ (p : Primitives) where
  -- `DeviceIdentity::generate`
  unfoldable pub generate : ℕ → Role → Option (List ℕ) → Result DeviceIdentity
  generate unit_id role random = then_ok (random_or_err random) λ seed. ok (record {
    unit_id = unit_id;
    role = role;
    signing = seed;
    signing_pub = p.verifying_key seed;
  })

  -- `Attestation::sign`
  unfoldable pub attest : DeviceIdentity → List ℕ → Attestation
  unfolding signed_message
  attest identity eph_pub = record {
    unit_id = identity.unit_id;
    role = identity.role;
    signing_pub = identity.signing_pub;
    eph_pub = eph_pub;
    sig = p.sign identity.signing (signed_message identity.unit_id identity.role eph_pub);
  }

  unfoldable pub generate_eph : Option (List ℕ) → Result (List ℕ × List ℕ)
  generate_eph random = then_ok (random_or_err random) λ seed. ok (seed, p.public_key seed)

  unfoldable pub begin_handshake :
      DeviceIdentity
      → List CipherSuite
      → Option (List ℕ)
      → Result (HandshakeInit × PendingHandshake)
  unfolding generate_eph attest
  begin_handshake identity suites random = then_ok (generate_eph random) λ (eph, eph_pub).
      ok (record { attestation = attest identity eph_pub; suites = suites }, record { eph = eph })

  module _ {A C : Type 0} (aes_ops : Aead A) (cha_ops : Aead C) where
    -- `derive_key`. The panic on a key that is refused is an error here; a key of 32 bytes is not.
    unfoldable pub derive_key : List ℕ → CipherSuite → Option (List ℕ) → Result (CryptoBox A C)
    unfolding new
    derive_key shared suite random = new aes_ops cha_ops suite (p.expand shared hkdf_info) random

    -- `random` is for the ephemeral key, `salt` for the box.
    unfoldable pub respond_handshake :
        DeviceIdentity
        → HandshakeInit
        → List CipherSuite
        → Option (List ℕ)
        → Option (List ℕ)
        → Result (HandshakeResp × SecureSession A C)
    unfolding generate_eph attest
    respond_handshake identity init our_suites random salt =
        if verify p.verifies init.attestation
        then (then_ok (generate_eph random) λ (eph, eph_pub).
            let shared = p.diffie_hellman eph init.attestation.eph_pub in
            elim (negotiate our_suites init.suites) [
              | none ↦ err (handshake no_common_suite)
              | some suite ↦ then_ok (derive_key shared suite salt) λ box. ok (
                record { attestation = attest identity eph_pub; suite = suite },
                record {
                  peer_id = init.attestation.unit_id;
                  peer_role = init.attestation.role;
                  crypto_box = box;
                  suite = suite;
                },
              )
            ])
        else err attestation_failed

    unfoldable pub finish_handshake :
        PendingHandshake → HandshakeResp → Option (List ℕ) → Result (SecureSession A C)
    finish_handshake pending resp salt =
        if verify p.verifies resp.attestation
        then (then_ok
            (derive_key (p.diffie_hellman pending.eph resp.attestation.eph_pub) resp.suite salt)
            λ box. ok (record {
              peer_id = resp.attestation.unit_id;
              peer_role = resp.attestation.role;
              crypto_box = box;
              suite = resp.suite;
            }))
        else err attestation_failed

    -- `SecureSession::seal` and `SecureSession::open`.
    unfoldable pub seal : List ℕ → List ℕ → SecureSession A C → Result (List ℕ) × SecureSession A C
    seal plaintext aad s =
        let (res, box) = seal_to_vec aes_ops cha_ops plaintext aad s.crypto_box in
        (res, record s { crypto_box = box })

    unfoldable pub open_sealed : List ℕ → List ℕ → List ℕ → SecureSession A C → Result (ℕ × List ℕ)
    open_sealed sealed aad out s = open_into aes_ops cha_ops sealed aad out s.crypto_box
