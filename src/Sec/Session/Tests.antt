-- ===== src/Sec/Session/Tests.antt =====
-- A handshake of crates/tpt-t-sec/src/session.rs with toy primitives: every signature verifies, and the
-- shared secret of two keys is the sum of their lengths.
use tpt_teleop.Prelude.{ℕ, ◌+◌, ◌≡◌, refl, ap, arith, true, some, List, [], ◌∷◌, ◌++◌, length, drop}
use tpt_teleop.Prelude.Bytes.{to_le_bytes}
use tpt_teleop.Sec.Rbac.{operator, admin}
use tpt_teleop.Sec.Identity.{ok, err, handshake, verify}
use tpt_teleop.Sec.Cipher.{
  aes256_gcm, cha_cha20_poly1305, aes, cha, Inner, negotiate, contains, new, build_inner,
  next_nonce, encrypt_with, seal_to_vec,
}
use tpt_teleop.Sec.Cipher.Toy.{clear, clear-IsAead}
use tpt_teleop.Sec.Session.{
  Primitives, DeviceIdentity, HandshakeInit, HandshakeResp, PendingHandshake, SecureSession,
  no_common_suite, attest, begin_handshake, derive_key, respond_handshake, finish_handshake, seal,
  open_sealed,
}
use tpt_teleop.Sec.Session.Agreement.{IsSound, Knows, handshake_agrees, open_sealed-seal}

abbrev toy : Primitives
toy = record {
  verifying_key = λ seed. seed;
  sign = λ seed msg. [];
  verifies = λ key msg sig. true;
  public_key = λ s. s;
  diffie_hellman = λ s t. (length s + length t) ∷ [];
  expand = λ shared info. shared;
}

toy-IsSound : IsSound toy clear clear
toy-IsSound = record {
  verifies_own = λ seed msg. refl;
  agrees = λ s t. ap (λ (n : ℕ). n ∷ []) (omega arith);
  takes_aes = λ shared. (shared, refl);
  takes_cha = λ shared. (shared, refl);
}

abbrev alice : DeviceIdentity
alice = record { unit_id = 7; role = operator; signing = 1 ∷ []; signing_pub = 1 ∷ [] }

abbrev bob : DeviceIdentity
bob = record { unit_id = 9; role = admin; signing = 2 ∷ []; signing_pub = 2 ∷ [] }

abbrev salt : List ℕ
salt = 9 ∷ 9 ∷ 9 ∷ 9 ∷ []

common : negotiate (aes256_gcm ∷ []) (cha_cha20_poly1305 ∷ aes256_gcm ∷ []) ≡ some aes256_gcm
unfolding negotiate contains
common = refl

abbrev init : HandshakeInit
init = record {
  attestation = attest toy alice (3 ∷ []);
  suites = cha_cha20_poly1305 ∷ aes256_gcm ∷ [];
}

abbrev pending : PendingHandshake
pending = record { eph = 3 ∷ [] }

abbrev resp : HandshakeResp
resp = record { attestation = attest toy bob (4 ∷ []); suite = aes256_gcm }

abbrev session_of : DeviceIdentity → SecureSession (List ℕ) (List ℕ)
session_of peer = record {
  peer_id = peer.unit_id;
  peer_role = peer.role;
  crypto_box = record { key = aes (2 ∷ []); suite = aes256_gcm; ctr = 0; salt = salt };
  suite = aes256_gcm;
}

initiator_begins :
    begin_handshake toy alice (cha_cha20_poly1305 ∷ aes256_gcm ∷ []) (some (3 ∷ []))
    ≡ ok (init, pending)
unfolding begin_handshake
initiator_begins = refl

responder_answers :
    respond_handshake toy clear clear bob init (aes256_gcm ∷ []) (some (4 ∷ [])) (some salt)
    ≡ ok (resp, session_of alice)
unfolding respond_handshake verify attest negotiate contains derive_key new build_inner
responder_answers = refl

initiator_finishes : finish_handshake toy clear clear pending resp (some salt) ≡ ok (session_of bob)
unfolding finish_handshake verify attest derive_key new build_inner
initiator_finishes = refl

no_suite :
    respond_handshake toy clear clear bob init [] (some (4 ∷ [])) (some salt)
    ≡ err (handshake no_common_suite)
unfolding respond_handshake verify negotiate
no_suite = refl

-- A reply with a suite that was not offered is taken.
not_offered :
    finish_handshake toy clear clear pending
      (record resp { suite = cha_cha20_poly1305 })
      (some salt)
    ≡ ok (record (session_of bob) {
      crypto_box = record { key = cha (2 ∷ []); suite = cha_cha20_poly1305; ctr = 0; salt = salt };
      suite = cha_cha20_poly1305;
    })
unfolding finish_handshake verify attest derive_key new build_inner
not_offered = refl

abbrev envelope : List ℕ
envelope =
    0 ∷ 0 ∷ 0 ∷ 0 ∷ 0 ∷ 0 ∷ 0 ∷ 0 ∷ 9 ∷ 9 ∷ 9 ∷ 9 ∷ 104 ∷ 105 ∷ 0 ∷ 0 ∷ 0 ∷ 0 ∷ 0 ∷ 0 ∷ 0 ∷ 0 ∷ 0
    ∷ 0 ∷ 0 ∷ 0 ∷ 0 ∷ 0 ∷ 0 ∷ 0 ∷ []

sealed_hi : (seal toy clear clear (104 ∷ 105 ∷ []) [] (session_of bob)).0 ≡ ok envelope
unfolding seal seal_to_vec next_nonce encrypt_with to_le_bytes
sealed_hi = refl

open_sealed-seal_example :
    open_sealed toy clear clear envelope [] (0 ∷ 0 ∷ 0 ∷ []) (session_of alice)
    ≡ ok (2, (104 ∷ 105 ∷ []) ++ drop 2 (0 ∷ 0 ∷ 0 ∷ []))
open_sealed-seal_example =
    open_sealed-seal toy clear clear toy-IsSound (clear-IsAead, clear-IsAead) alice bob
      (cha_cha20_poly1305 ∷ aes256_gcm ∷ []) (aes256_gcm ∷ []) aes256_gcm (3 ∷ []) (4 ∷ []) salt
      salt (104 ∷ 105 ∷ []) [] (0 ∷ 0 ∷ 0 ∷ []) refl refl common initiator_begins responder_answers
      initiator_finishes refl (omega arith) sealed_hi

handshake_agrees_example :
    (i : HandshakeInit) × (q : PendingHandshake) × (r : HandshakeResp) × (session_a : SecureSession
      (List ℕ)
      (List ℕ))
    × (session_b : SecureSession (List ℕ) (List ℕ)) × (key : Inner (List ℕ) (List ℕ))
    × (begin_handshake toy alice (cha_cha20_poly1305 ∷ aes256_gcm ∷ []) (some (3 ∷ [])) ≡ ok (i, q))
    × (respond_handshake toy clear clear bob i (aes256_gcm ∷ []) (some (4 ∷ [])) (some salt)
        ≡ ok (r, session_b))
    × (finish_handshake toy clear clear q r (some salt) ≡ ok session_a)
    × Knows session_a bob aes256_gcm key salt
    × Knows session_b alice aes256_gcm key salt
handshake_agrees_example =
    handshake_agrees toy clear clear toy-IsSound alice bob (cha_cha20_poly1305 ∷ aes256_gcm ∷ [])
      (aes256_gcm ∷ []) aes256_gcm (3 ∷ []) (4 ∷ []) salt salt refl refl common
