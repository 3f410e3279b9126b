-- ===== src/Sec/Cipher.antt =====
-- crates/tpt-t-sec/src/cipher.rs: the sealed envelope `nonce ‖ ciphertext ‖ tag`. The two AEAD crates and
-- the random bytes are parameters.
use tpt_teleop.Prelude.{
  ℕ, ◌+◌, ◌-◌, ◌%◌, Bool, true, false, ◌||◌, Option, none, some, List, [], ◌∷◌, ◌++◌, length, take,
  drop, replicate, ltb, if◌then◌else◌,
}
use tpt_teleop.Prelude.Words.{u32_mod, wrapping_add_64}
use tpt_teleop.Prelude.Bytes.{to_le_bytes}
use tpt_teleop.Ring.Spsc.{Spsc, Pushed, accepted, refused}
use tpt_teleop.Ring.Spsc
use tpt_teleop.Sec.Identity.{
  SecError, invalid_key_length, crypto, key_gen, buffer_too_small, ring_full, Result, ok, err,
}
pub mod Sealing
pub mod Nonces
pub mod IntoRing
pub mod Toy
mod Tests

abbrev pub nonce_len : ℕ
nonce_len = 12

abbrev pub tag_len : ℕ
tag_len = 16

pub data CipherSuite : Type 0 where
  aes256_gcm : CipherSuite
  cha_cha20_poly1305 : CipherSuite

unfoldable pub overhead : CipherSuite → ℕ
overhead suite = nonce_len + tag_len

unfoldable pub all : List CipherSuite
all = aes256_gcm ∷ cha_cha20_poly1305 ∷ []

abbrev pub same_suite : CipherSuite → CipherSuite → Bool
same_suite aes256_gcm aes256_gcm = true
same_suite cha_cha20_poly1305 cha_cha20_poly1305 = true
same_suite _ _ = false

-- `theirs.contains(s)`
unfoldable pub contains : CipherSuite → List CipherSuite → Bool
contains s [] = false
contains s (t ∷ theirs) = same_suite s t || contains s theirs

unfoldable pub negotiate : List CipherSuite → List CipherSuite → Option CipherSuite
unfolding contains
negotiate [] theirs = none
negotiate (s ∷ ours) theirs =
    let rest = negotiate ours theirs in if contains s theirs then some s else rest

-- A cipher of the crates `aes-gcm` and `chacha20poly1305`, with the keys that it makes: from the bytes of
-- a key; from a nonce, associated data and a plaintext, the ciphertext and the tag; and back.
pub record Aead (K : Type 0) : Type 0 where
  pub new_from_slice : List ℕ → Option K
  pub encrypt : K → List ℕ → List ℕ → List ℕ → Option (List ℕ × List ℕ)
  pub decrypt : K → List ℕ → List ℕ → List ℕ → List ℕ → Option (List ℕ)

pub data Inner (A C : Type 0) : Type 0 where
  aes : A → Inner A C
  cha : C → Inner A C

pub record CryptoBox (A C : Type 0) : Type 0 where
  pub key : Inner A C
  pub suite : CipherSuite
  pub ctr : ℕ
  pub salt : List ℕ

-- The bytes of `buf`, `n` in all, and how many of them hold a plaintext.
pub record SecureBlock : Type 0 where
  pub buf : List ℕ
  pub len : ℕ

unfoldable pub as_slice : SecureBlock → List ℕ
as_slice b = take b.len b.buf

unfoldable pub new_block : ℕ → SecureBlock
new_block n = record { buf = replicate n 0; len = 0 }

-- `ring.push(block).map_err(..)?` and the length at the end of `decrypt_into_ring`.
unfoldable pub answered : ℕ → Pushed SecureBlock × Spsc SecureBlock → Result ℕ × Spsc SecureBlock
answered pt_len (accepted, ring) = (ok pt_len, ring)
answered pt_len (refused _, ring) = (err ring_full, ring)

module _ {A C : Type 0} where
  unfoldable pub next_nonce : CryptoBox A C → List ℕ × CryptoBox A C
  unfolding to_le_bytes
  next_nonce box =
      (to_le_bytes 8 box.ctr ++ box.salt, record box { ctr = wrapping_add_64 box.ctr 1 })

  -- `out.truncate(n)` at the end of `seal_to_vec`, if sealing went well.
  unfoldable pub truncate : Result (ℕ × List ℕ) × CryptoBox A C → Result (List ℕ) × CryptoBox A C
  truncate (err e, box) = (err e, box)
  truncate (ok (n, bytes), box) = (ok (take n bytes), box)

-- The parameters of the two ciphers.
module _ {A C : Type 0} (aes_ops : Aead A) (cha_ops : Aead C) where
  unfoldable pub build_inner : CipherSuite → List ℕ → Result (Inner A C)
  build_inner aes256_gcm key = elim (aes_ops.new_from_slice key) [
    | none ↦ err invalid_key_length
    | some k ↦ ok (aes k)
  ]
  build_inner cha_cha20_poly1305 key = elim (cha_ops.new_from_slice key) [
    | none ↦ err invalid_key_length
    | some k ↦ ok (cha k)
  ]

  -- `random` is what `getrandom` gives.
  unfoldable pub new : CipherSuite → List ℕ → Option (List ℕ) → Result (CryptoBox A C)
  new suite key random = elim (build_inner suite key) [
    | err e ↦ err e
    | ok k ↦ elim random [
      | none ↦ err key_gen
      | some salt ↦ ok (record { key = k; suite = suite; ctr = 0; salt = salt })
    ]
  ]

  unfoldable pub encrypt_with : Inner A C → List ℕ → List ℕ → List ℕ → Option (List ℕ × List ℕ)
  encrypt_with (aes k) nonce aad pt = aes_ops.encrypt k nonce aad pt
  encrypt_with (cha k) nonce aad pt = cha_ops.encrypt k nonce aad pt

  unfoldable pub decrypt_with : Inner A C → List ℕ → List ℕ → List ℕ → List ℕ → Option (List ℕ)
  decrypt_with (aes k) nonce aad ct tag = aes_ops.decrypt k nonce aad ct tag
  decrypt_with (cha k) nonce aad ct tag = cha_ops.decrypt k nonce aad ct tag

  -- The length that was written and the buffer after it; the box after it.
  unfoldable pub seal_into :
      List ℕ → List ℕ → List ℕ → CryptoBox A C → Result (ℕ × List ℕ) × CryptoBox A C
  unfolding next_nonce encrypt_with
  seal_into plaintext aad out box =
      let need = nonce_len + length plaintext + tag_len in
      let (nonce, box') = next_nonce box in
      if ltb (length out) need
      then (err buffer_too_small, box)
      else elim (encrypt_with box.key nonce aad plaintext) [
        | none ↦ (err crypto, box')
        | some (ct, tag) ↦ (ok (need, nonce ++ (ct ++ (tag ++ drop need out))), box')
      ]

  unfoldable pub seal_to_vec : List ℕ → List ℕ → CryptoBox A C → Result (List ℕ) × CryptoBox A C
  unfolding seal_into truncate
  seal_to_vec plaintext aad box =
      truncate (seal_into plaintext aad (replicate (nonce_len + length plaintext + tag_len) 0) box)

  -- The length of the plaintext and the buffer after it.
  unfoldable pub open_in_place : List ℕ → List ℕ → CryptoBox A C → Result (ℕ × List ℕ)
  unfolding decrypt_with
  open_in_place buf aad box =
      let pt_len = length buf - nonce_len - tag_len in
      let nonce = take nonce_len buf in
      let ct = take pt_len (drop nonce_len buf) in
      let tag = drop pt_len (drop nonce_len buf) in
      if ltb (length buf) (nonce_len + tag_len)
      then err crypto
      else elim (decrypt_with box.key nonce aad ct tag) [
        | none ↦ err crypto
        | some pt ↦ ok (pt_len, pt ++ drop pt_len (nonce ++ (pt ++ tag)))
      ]

  unfoldable pub open_into : List ℕ → List ℕ → List ℕ → CryptoBox A C → Result (ℕ × List ℕ)
  open_into sealed aad out box =
      let pt_len = length sealed - nonce_len - tag_len in
      if ltb (length sealed) (nonce_len + tag_len)
      then err crypto
      else if ltb (length out) pt_len
      then err buffer_too_small
      else elim (open_in_place sealed aad box) [
        | err e ↦ err e
        | ok (n, work) ↦ ok (n, take n work ++ drop n out)
      ]

  -- `decrypt_into_ring` for blocks of `n` bytes.
  unfoldable pub decrypt_into_ring :
      ℕ → List ℕ → List ℕ → CryptoBox A C → Spsc SecureBlock → Result ℕ × Spsc SecureBlock
  unfolding new_block answered
  decrypt_into_ring n sealed aad box ring =
      if ltb n (length sealed)
      then (err buffer_too_small, ring)
      else elim (open_in_place sealed aad box) [
        | err e ↦ (err e, ring)
        | ok (pt_len, opened) ↦
            let block : SecureBlock = record {
              buf = opened ++ drop (length sealed) (new_block n).buf;
              len = pt_len % u32_mod;
            } in
            answered pt_len (Spsc.push ring block)
      ]
