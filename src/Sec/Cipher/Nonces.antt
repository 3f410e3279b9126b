-- ===== src/Sec/Cipher/Nonces.antt =====
-- The nonces of crates/tpt-t-sec/src/cipher.rs.
use mathlib.Core.Logic.{◌≢◌}
use tpt_teleop.Prelude.{
  ℕ, zero, suc, ◌+◌, ◌%◌, ◌<◌, ◌≡◌, refl, ap, ◌∙◌, sym, subst, arith, Option-cases, inl, inr, some,
  List, [], ◌∷◌, ◌++◌, take, length, get_elem?,
}
use tpt_teleop.Prelude.Words.{u64_mod}
use tpt_teleop.Prelude.Bytes.{
  to_le_bytes, from_le_bytes, length-to_le_bytes, from_le_bytes-to_le_bytes, take-append,
}
use tpt_teleop.Sec.Identity.{Result, ok}
use tpt_teleop.Sec.Cipher.{nonce_len, Aead, CryptoBox, next_nonce, encrypt_with, seal_to_vec}
use tpt_teleop.Sec.Cipher.Sealing.{IsAead, seal_lem, seal_failed, sealed_parts, length-next_nonce}

module _ {A C : Type 0} where
  -- The box after `n` nonces.
  unfoldable pub after_nonces : ℕ → CryptoBox A C → CryptoBox A C
  unfolding next_nonce
  after_nonces zero box = box
  after_nonces (suc n) box = (next_nonce (after_nonces n box)).1

  -- The nonce that is given after `n` others.
  unfoldable pub nth_nonce : ℕ → CryptoBox A C → List ℕ
  unfolding after_nonces
  nth_nonce n box = (next_nonce (after_nonces n box)).0

  ctr_lem :
      (n : ℕ) (box : CryptoBox A C)
      → box.ctr < u64_mod
      → (after_nonces n box).ctr ≡ (box.ctr + n) % u64_mod
  unfolding after_nonces next_nonce
  ctr_lem zero box h = omega arith
  ctr_lem (suc n) box h = omega (arith, ctr_lem n box h)

  counter_of :
      (n : ℕ) (box : CryptoBox A C)
      → box.ctr < u64_mod
      → from_le_bytes (take 8 (nth_nonce n box)) ≡ (box.ctr + n) % u64_mod
  unfolding nth_nonce next_nonce
  counter_of n box h =
      let now = after_nonces n box in
      let e = ctr_lem n box h in
      ap from_le_bytes
        (take-append 8 (to_le_bytes 8 now.ctr) now.salt (length-to_le_bytes 8 now.ctr))
      ∙ from_le_bytes-to_le_bytes 8 now.ctr (omega (arith, e))
      ∙ e

  -- A box gives no nonce twice within 2 ^ 64 of them, wherever its counter stands.
  pub nth_nonce-ne :
      (i j : ℕ) (box : CryptoBox A C)
      → box.ctr < u64_mod
      → i < j
      → j < u64_mod
      → nth_nonce i box ≢ nth_nonce j box
  nth_nonce-ne i j box h lt bound same =
      let counters = ap (λ (n : List ℕ). from_le_bytes (take 8 n)) same in
      omega (arith, counters, counter_of i box h, counter_of j box h)

  after_nonces_shift :
      (n : ℕ) (box : CryptoBox A C) → after_nonces n (next_nonce box).1 ≡ after_nonces (suc n) box
  unfolding after_nonces
  after_nonces_shift zero box = refl
  after_nonces_shift (suc n) box = ap (λ b. (next_nonce b).1) (after_nonces_shift n box)

  nth_nonce_shift :
      (n : ℕ) (box : CryptoBox A C) → nth_nonce n (next_nonce box).1 ≡ nth_nonce (suc n) box
  unfolding nth_nonce
  nth_nonce_shift n box = ap (λ b. (next_nonce b).0) (after_nonces_shift n box)

  salt_lem : (box : CryptoBox A C) → (next_nonce box).1.salt ≡ box.salt
  unfolding next_nonce
  salt_lem box = refl

module _ {A C : Type 0} (aes_ops : Aead A) (cha_ops : Aead C) where
  -- The results of sealing messages, each with its associated data, one after another.
  unfoldable pub seal_all : List (List ℕ × List ℕ) → CryptoBox A C → List (Result (List ℕ))
  seal_all [] box = []
  seal_all ((pt, aad) ∷ ms) box =
      let (res, box') = seal_to_vec aes_ops cha_ops pt aad box in res ∷ seal_all ms box'

module _ {A C : Type 0} (aes_ops : Aead A) (cha_ops : Aead C) (a : IsAead aes_ops)
    (c : IsAead cha_ops) where
  spends_nonce :
      (box : CryptoBox A C) (pt aad : List ℕ)
      → length box.salt ≡ 4
      → (seal_to_vec aes_ops cha_ops pt aad box).1 ≡ (next_nonce box).1
  spends_nonce box pt aad hs =
      elim (Option-cases (encrypt_with aes_ops cha_ops box.key (next_nonce box).0 aad pt)) [
        | inl failed ↦ ap (λ r. r.1) (seal_failed aes_ops cha_ops a c box pt aad failed)
        | inr ((ct, tag), made) ↦
            ap (λ r. r.1) (seal_lem aes_ops cha_ops a c box pt aad ct tag hs made)
      ]

  starts_with_nonce :
      (ms : List (List ℕ × List ℕ)) (i : ℕ) (box : CryptoBox A C) {sealed : List ℕ}
      → length box.salt ≡ 4
      → get_elem? (seal_all aes_ops cha_ops ms box) i ≡ some (ok sealed)
      → take nonce_len sealed ≡ nth_nonce i box
  unfolding seal_all nth_nonce
  starts_with_nonce [] i box hs e = cc
  starts_with_nonce ((pt, aad) ∷ ms) zero box {sealed} hs e =
      let (ct, tag, spelled, _, _) = sealed_parts aes_ops cha_ops a c box pt aad hs (cc e) in
      ap (take nonce_len) spelled
      ∙ take-append nonce_len (next_nonce box).0 (ct ++ tag)
          (length-next_nonce aes_ops cha_ops a c box hs)
  starts_with_nonce ((pt, aad) ∷ ms) (suc i) box {sealed} hs e =
      let later : get_elem? (seal_all aes_ops cha_ops ms (next_nonce box).1) i ≡ some (ok sealed) =
        subst (λ b. get_elem? (seal_all aes_ops cha_ops ms b) i ≡ some (ok sealed))
          (spends_nonce box pt aad hs) e in
      starts_with_nonce ms i (next_nonce box).1 (ap length (salt_lem box) ∙ hs) later
      ∙ nth_nonce_shift i box

  -- No two of the envelopes that a box makes, fewer than 2 ^ 64 of them, start with the same nonce.
  pub seal_all-ne :
      (ms : List (List ℕ × List ℕ)) (i j : ℕ) (box : CryptoBox A C) {first second : List ℕ}
      → length box.salt ≡ 4
      → box.ctr < u64_mod
      → i < j
      → j < u64_mod
      → get_elem? (seal_all aes_ops cha_ops ms box) i ≡ some (ok first)
      → get_elem? (seal_all aes_ops cha_ops ms box) j ≡ some (ok second)
      → take nonce_len first ≢ take nonce_len second
  seal_all-ne ms i j box {first} {second} hs h lt bound e f same =
      nth_nonce-ne i j box h lt bound
        (sym (starts_with_nonce ms i box hs e) ∙ same ∙ starts_with_nonce ms j box hs f)
