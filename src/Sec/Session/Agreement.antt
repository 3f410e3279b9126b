-- ===== src/Sec/Session/Agreement.antt =====
-- The two ends of a handshake of crates/tpt-t-sec/src/session.rs.
use tpt_teleop.Prelude.{ℕ, ◌≤◌, ◌≡◌, refl, ap, ◌∙◌, sym, true, none, some, List, ◌++◌, length, drop}
use tpt_teleop.Sec.Identity.{invalid_key_length, ok, err, signed_message, verify}
use tpt_teleop.Sec.Cipher.{
  CipherSuite, aes256_gcm, cha_cha20_poly1305, negotiate, Aead, Inner, aes, cha, CryptoBox,
  build_inner, new,
}
use tpt_teleop.Sec.Cipher.Sealing.{IsAead, open_into-seal_to_vec}
use tpt_teleop.Sec.Session.{
  Primitives, DeviceIdentity, HandshakeInit, HandshakeResp, PendingHandshake, SecureSession,
  hkdf_info, attest, generate_eph, begin_handshake, derive_key, respond_handshake, finish_handshake,
  seal, open_sealed,
}

-- What the documentation of the crates says of them: what a key signs its public key verifies, two ends
-- agree on the shared secret, and the ciphers take a key that was derived.
pub record IsSound (p : Primitives) {A C : Type 0} (aes_ops : Aead A) (cha_ops : Aead C)
    : Type 0 where
  pub verifies_own :
      (seed msg : List ℕ) → p.verifies (p.verifying_key seed) msg (p.sign seed msg) ≡ true
  pub agrees :
      (s t : List ℕ) → p.diffie_hellman s (p.public_key t) ≡ p.diffie_hellman t (p.public_key s)
  pub takes_aes :
      (shared : List ℕ) → (k : A) × (aes_ops.new_from_slice (p.expand shared hkdf_info) ≡ some k)
  pub takes_cha :
      (shared : List ℕ) → (k : C) × (cha_ops.new_from_slice (p.expand shared hkdf_info) ≡ some k)

-- What one end of a handshake knows: the peer and the suite, and a box with the key and its salt.
pub record Knows {A C : Type 0} (s : SecureSession A C) (peer : DeviceIdentity)
    (suite : CipherSuite) (key : Inner A C) (salt : List ℕ) : Type 0 where
  pub peer_id : s.peer_id ≡ peer.unit_id
  pub peer_role : s.peer_role ≡ peer.role
  pub suite_is : s.suite ≡ suite
  pub key_is : s.crypto_box.key ≡ key
  pub salt_is : s.crypto_box.salt ≡ salt

module _ (p : Primitives) {A C : Type 0} (aes_ops : Aead A) (cha_ops : Aead C)
    (sound : IsSound p aes_ops cha_ops) where
  -- An identity whose public key is that of its signing key, as `generate` makes it.
  abbrev pub IsGenerated : DeviceIdentity → Type 0
  IsGenerated i = i.signing_pub ≡ p.verifying_key i.signing

  attest_lem :
      (i : DeviceIdentity) (eph_pub : List ℕ)
      → IsGenerated i
      → verify p.verifies (attest p i eph_pub) ≡ true
  unfolding verify attest
  attest_lem i eph_pub h =
      let msg = signed_message i.unit_id i.role eph_pub in
      ap (λ k. p.verifies k msg (p.sign i.signing msg)) h ∙ sound.verifies_own i.signing msg

  built :
      (shared : List ℕ) (suite : CipherSuite)
      → (k : Inner A C) × (build_inner aes_ops cha_ops suite (p.expand shared hkdf_info) ≡ ok k)
  unfolding build_inner
  built shared aes256_gcm =
      let (k, e) = sound.takes_aes shared in
      (aes k, ap (λ o. elim o [ none ↦ err invalid_key_length | some j ↦ ok (aes j) ]) e)
  built shared cha_cha20_poly1305 =
      let (k, e) = sound.takes_cha shared in
      (cha k, ap (λ o. elim o [ none ↦ err invalid_key_length | some j ↦ ok (cha j) ]) e)

  new_lem :
      (key salt : List ℕ) (suite : CipherSuite) (k : Inner A C)
      → build_inner aes_ops cha_ops suite key ≡ ok k
      → new aes_ops cha_ops suite key (some salt)
        ≡ ok (record { key = k; suite = suite; ctr = 0; salt = salt })
  unfolding new
  new_lem key salt suite k e = rw (new, e) refl

  derived_lem :
      (shared salt : List ℕ) (suite : CipherSuite) (k : Inner A C)
      → build_inner aes_ops cha_ops suite (p.expand shared hkdf_info) ≡ ok k
      → derive_key p aes_ops cha_ops shared suite (some salt)
        ≡ ok (record { key = k; suite = suite; ctr = 0; salt = salt })
  unfolding derive_key
  derived_lem shared salt suite k e = new_lem (p.expand shared hkdf_info) salt suite k e

  respond_lem :
      (bob : DeviceIdentity) (init : HandshakeInit) (ours : List CipherSuite) (eph salt : List ℕ)
      (suite : CipherSuite) (box : CryptoBox A C)
      → verify p.verifies init.attestation ≡ true
      → negotiate ours init.suites ≡ some suite
      → derive_key p aes_ops cha_ops
          (p.diffie_hellman eph init.attestation.eph_pub)
          suite
          (some salt)
        ≡ ok box
      → respond_handshake p aes_ops cha_ops bob init ours (some eph) (some salt)
        ≡ ok (
          record { attestation = attest p bob (p.public_key eph); suite = suite },
          record {
            peer_id = init.attestation.unit_id;
            peer_role = init.attestation.role;
            crypto_box = box;
            suite = suite;
          },
        )
  unfolding respond_handshake generate_eph
  respond_lem bob init ours eph salt suite box signed common key =
      rw (respond_handshake, signed, common, key) refl

  finish_lem :
      (pending : PendingHandshake) (resp : HandshakeResp) (salt : List ℕ) (box : CryptoBox A C)
      → verify p.verifies resp.attestation ≡ true
      → derive_key p aes_ops cha_ops
          (p.diffie_hellman pending.eph resp.attestation.eph_pub)
          resp.suite
          (some salt)
        ≡ ok box
      → finish_handshake p aes_ops cha_ops pending resp (some salt)
        ≡ ok (record {
          peer_id = resp.attestation.unit_id;
          peer_role = resp.attestation.role;
          crypto_box = box;
          suite = resp.suite;
        })
  unfolding finish_handshake
  finish_lem pending resp salt box signed key = rw (finish_handshake, signed, key) refl

  -- Any two units whose public keys are those of their signing keys, and who have a suite in common,
  -- come to a session each: each knows the other, both have the suite that the responder prefers
  -- and the same key.
  pub handshake_agrees :
      (alice bob : DeviceIdentity) (offered ours : List CipherSuite) (suite : CipherSuite)
      (eph_a eph_b salt_a salt_b : List ℕ)
      → IsGenerated alice
      → IsGenerated bob
      → negotiate ours offered ≡ some suite
      → (init : HandshakeInit) × (pending : PendingHandshake) × (resp : HandshakeResp)
        × (session_a : SecureSession A C) × (session_b : SecureSession A C) × (key : Inner A C)
        × (begin_handshake p alice offered (some eph_a) ≡ ok (init, pending))
        × (respond_handshake p aes_ops cha_ops bob init ours (some eph_b) (some salt_b)
            ≡ ok (resp, session_b))
        × (finish_handshake p aes_ops cha_ops pending resp (some salt_a) ≡ ok session_a)
        × Knows session_a bob suite key salt_a
        × Knows session_b alice suite key salt_b
  unfolding begin_handshake generate_eph attest
  handshake_agrees alice bob offered ours suite eph_a eph_b salt_a salt_b ha hb common =
      let pub_a = p.public_key eph_a in
      let pub_b = p.public_key eph_b in
      let shared = p.diffie_hellman eph_b pub_a in
      let (key, made) = built shared suite in
      let box_a : CryptoBox A C = record { key = key; suite = suite; ctr = 0; salt = salt_a } in
      let box_b : CryptoBox A C = record { key = key; suite = suite; ctr = 0; salt = salt_b } in
      let init : HandshakeInit = record { attestation = attest p alice pub_a; suites = offered } in
      let pending : PendingHandshake = record { eph = eph_a } in
      let resp : HandshakeResp = record { attestation = attest p bob pub_b; suite = suite } in
      let same : derive_key p aes_ops cha_ops (p.diffie_hellman eph_a pub_b) suite (some salt_a)
          ≡ ok box_a =
        ap (λ shared. derive_key p aes_ops cha_ops shared suite (some salt_a))
          (sound.agrees eph_a eph_b)
        ∙ derived_lem shared salt_a suite key made in
      (
        init,
        pending,
        resp,
        _,
        _,
        key,
        refl,
        respond_lem bob init ours eph_b salt_b suite box_b (attest_lem alice pub_a ha) common
            (derived_lem shared salt_b suite key made),
        finish_lem pending resp salt_a box_a (attest_lem bob pub_b hb) same,
        record { peer_id = refl; peer_role = refl; suite_is = refl; key_is = refl; salt_is = refl },
        record { peer_id = refl; peer_role = refl; suite_is = refl; key_is = refl; salt_is = refl },
      )

  -- After a handshake, what the initiator seals the responder opens.
  pub open_sealed-seal :
      (ciphers : IsAead aes_ops × IsAead cha_ops) (alice bob : DeviceIdentity)
      (offered ours : List CipherSuite) (suite : CipherSuite)
      (eph_a eph_b salt_a salt_b pt aad out : List ℕ) {init : HandshakeInit}
      {pending : PendingHandshake} {resp : HandshakeResp} {session_a session_b : SecureSession A C}
      {sealed : List ℕ}
      → IsGenerated alice
      → IsGenerated bob
      → negotiate ours offered ≡ some suite
      → begin_handshake p alice offered (some eph_a) ≡ ok (init, pending)
      → respond_handshake p aes_ops cha_ops bob init ours (some eph_b) (some salt_b)
        ≡ ok (resp, session_b)
      → finish_handshake p aes_ops cha_ops pending resp (some salt_a) ≡ ok session_a
      → length salt_a ≡ 4
      → length pt ≤ length out
      → (seal p aes_ops cha_ops pt aad session_a).0 ≡ ok sealed
      → open_sealed p aes_ops cha_ops sealed aad out session_b
        ≡ ok (length pt, pt ++ drop (length pt) out)
  unfolding seal open_sealed
  open_sealed-seal (a, c) alice bob offered ours suite eph_a eph_b salt_a salt_b pt aad out {init}
        {pending} {resp} {session_a} {session_b} ha hb common begun responded finished hs room e =
      let (i, q, r, sa, sb, key, begins, responds, finishes, knows_a, knows_b) =
        handshake_agrees alice bob offered ours suite eph_a eph_b salt_a salt_b ha hb common in
      let same_init : init ≡ i = cc (begun, begins) in
      let same_pending : pending ≡ q = cc (begun, begins) in
      let same_resp : resp ≡ r = cc (responded, responds, same_init) in
      let same_b : session_b ≡ sb = cc (responded, responds, same_init) in
      let same_a : session_a ≡ sa = cc (finished, finishes, same_pending, same_resp) in
      let key_a : session_a.crypto_box.key ≡ key = cc (same_a, knows_a.key_is) in
      let key_b : session_b.crypto_box.key ≡ key = cc (same_b, knows_b.key_is) in
      let salt : session_a.crypto_box.salt ≡ salt_a = cc (same_a, knows_a.salt_is) in
      open_into-seal_to_vec aes_ops cha_ops a c session_a.crypto_box session_b.crypto_box pt aad out
        (ap length salt ∙ hs) (key_b ∙ sym key_a) room e
