-- ===== src/Sec/Cipher/Tests.antt =====
-- Runs of crates/tpt-t-sec/src/cipher.rs with a toy cipher.
use mathlib.Core.Logic.{◌≢◌}
use tpt_teleop.Prelude.{
  ℕ, ◌≡◌, ◌^◌, refl, arith, some, List, [], ◌∷◌, length, take, ltb, if◌then◌else◌,
}
use tpt_teleop.Prelude.Bytes.{to_le_bytes}
use tpt_teleop.Ring.Spsc.{with_capacity}
use tpt_teleop.Ring.Bounded.{enqueue}
use tpt_teleop.Ring.Refine.{Holds}
use tpt_teleop.Ring.Runs.{with_capacity_lem}
use tpt_teleop.Prelude.PowTwo.{log2_ceil}
use tpt_teleop.Sec.Identity.{ok, err, ring_full, crypto, buffer_too_small}
use tpt_teleop.Sec.Cipher.{
  aes256_gcm, cha_cha20_poly1305, negotiate, contains, nonce_len, SecureBlock, as_slice, next_nonce,
  encrypt_with, seal_into, seal_to_vec, open_into, decrypt_into_ring,
}
use tpt_teleop.Sec.Cipher.Nonces.{seal_all, seal_all-ne}
use tpt_teleop.Sec.Cipher.IntoRing.{decrypt_into_ring-seal_to_vec}
use tpt_teleop.Sec.Cipher.Toy.{clear, clear-IsAead, box_from}

our_preference :
    negotiate (cha_cha20_poly1305 ∷ aes256_gcm ∷ []) (aes256_gcm ∷ cha_cha20_poly1305 ∷ [])
    ≡ some cha_cha20_poly1305
unfolding negotiate contains
our_preference = refl

abbrev salt : List ℕ
salt = 9 ∷ 9 ∷ 9 ∷ 9 ∷ []

-- The second nonce of the box, "hi", and a tag of zeros.
abbrev first_seal : List ℕ
first_seal =
    0 ∷ 0 ∷ 0 ∷ 0 ∷ 0 ∷ 0 ∷ 0 ∷ 0 ∷ 9 ∷ 9 ∷ 9 ∷ 9 ∷ 104 ∷ 105 ∷ 0 ∷ 0 ∷ 0 ∷ 0 ∷ 0 ∷ 0 ∷ 0 ∷ 0 ∷ 0
    ∷ 0 ∷ 0 ∷ 0 ∷ 0 ∷ 0 ∷ 0 ∷ 0 ∷ []

sealed_hi : (seal_to_vec clear clear (104 ∷ 105 ∷ []) [] (box_from salt)).0 ≡ ok first_seal
unfolding seal_to_vec next_nonce encrypt_with to_le_bytes
sealed_hi = refl

too_short : open_into clear clear (1 ∷ []) [] [] (box_from salt) ≡ err crypto
unfolding open_into
too_short = refl

no_room : (seal_into clear clear (1 ∷ []) [] [] (box_from salt)).0 ≡ err buffer_too_small
unfolding seal_into
no_room = refl

abbrev two_messages : List (List ℕ × List ℕ)
two_messages = (104 ∷ 105 ∷ [], []) ∷ ([], []) ∷ []

abbrev second_seal : List ℕ
second_seal =
    1 ∷ 0 ∷ 0 ∷ 0 ∷ 0 ∷ 0 ∷ 0 ∷ 0 ∷ 9 ∷ 9 ∷ 9 ∷ 9 ∷ 0 ∷ 0 ∷ 0 ∷ 0 ∷ 0 ∷ 0 ∷ 0 ∷ 0 ∷ 0 ∷ 0 ∷ 0 ∷ 0
    ∷ 0 ∷ 0 ∷ 0 ∷ 0 ∷ []

both_sealed :
    seal_all clear clear two_messages (box_from salt) ≡ ok first_seal ∷ ok second_seal ∷ []
unfolding seal_all seal_to_vec next_nonce encrypt_with to_le_bytes
both_sealed = refl

seal_all-ne_example : take nonce_len first_seal ≢ take nonce_len second_seal
unfolding seal_all seal_to_vec next_nonce encrypt_with to_le_bytes
seal_all-ne_example =
    seal_all-ne clear clear clear-IsAead clear-IsAead two_messages 0 1 (box_from salt) refl
      (omega arith) (omega arith) (omega arith) refl refl

-- The first envelope in a ring of one block of 32 bytes.
decrypt_into_ring-seal_to_vec_example :
    let (res, ring') =
      decrypt_into_ring clear clear 32 first_seal [] (box_from salt) (with_capacity 1) in
    (block : SecureBlock) × (as_slice block ≡ 104 ∷ 105 ∷ [])
    × (res ≡ (if ltb (length {A = SecureBlock} []) (2 ^ 0) then ok 2 else err ring_full))
    × Holds 0 ring' (enqueue (2 ^ 0) [] block).1
unfolding log2_ceil
decrypt_into_ring-seal_to_vec_example =
    decrypt_into_ring-seal_to_vec clear clear clear-IsAead clear-IsAead 32 0 (box_from salt)
      (box_from salt) (104 ∷ 105 ∷ []) [] (with_capacity 1) [] refl refl (omega arith) (omega arith)
      (with_capacity_lem 1 (omega arith)).0 sealed_hi
