-- ===== src/Sec/Cipher/IntoRing.antt =====
-- Envelopes of crates/tpt-t-sec/src/cipher.rs that are opened into a ring.
use tpt_teleop.Prelude.{
  ℕ, ◌+◌, ◌%◌, ◌^◌, ◌≤◌, ◌<◌, ◌≡◌, refl, ap, sym, subst, ◌∙◌, arith, false, List, ◌++◌,
  append_assoc, length, take, drop, ltb, if◌then◌else◌,
}
use tpt_teleop.Prelude.Bytes.{take-append}
use tpt_teleop.Prelude.Words.{u32_mod}
use tpt_teleop.Ring.Spsc.{Spsc, Pushed, accepted, refused, push}
use tpt_teleop.Ring.Bounded.{enqueue}
use tpt_teleop.Ring.Refine.{Holds, push-Holds}
use tpt_teleop.Core.Bus.{is_ok}
use tpt_teleop.Sec.Identity.{Result, ok, err, ring_full}
use tpt_teleop.Sec.Cipher.{
  nonce_len, tag_len, Aead, CryptoBox, SecureBlock, as_slice, new_block, seal_to_vec, answered,
  open_in_place, decrypt_into_ring,
}
use tpt_teleop.Sec.Cipher.Sealing.{IsAead, sealed_parts, open_in_place-seal_to_vec}

module _ {A C : Type 0} (aes_ops : Aead A) (cha_ops : Aead C) where
  -- The block that an opened envelope makes.
  abbrev block_of : ℕ → ℕ → ℕ → List ℕ → SecureBlock
  block_of n sealed_len pt_len opened = record {
    buf = opened ++ drop sealed_len (new_block n).buf;
    len = pt_len % u32_mod;
  }

  into_ring :
      (n pt_len : ℕ) (sealed aad opened : List ℕ) (box : CryptoBox A C) (ring : Spsc SecureBlock)
      → ltb n (length sealed) ≡ false
      → open_in_place aes_ops cha_ops sealed aad box ≡ ok (pt_len, opened)
      → decrypt_into_ring aes_ops cha_ops n sealed aad box ring
        ≡ answered pt_len (push ring (block_of n (length sealed) pt_len opened))
  unfolding decrypt_into_ring
  into_ring n pt_len sealed aad opened box ring fits e = rw (decrypt_into_ring, fits, e) refl

answered_ring : (n : ℕ) (p : Pushed SecureBlock × Spsc SecureBlock) → (answered n p).1 ≡ p.1
unfolding answered
answered_ring n (accepted, ring) = refl
answered_ring n (refused _, ring) = refl

answered_result :
    (n : ℕ) (p : Pushed SecureBlock × Spsc SecureBlock)
    → (answered n p).0 ≡ (if is_ok p.0 then ok n else err ring_full)
unfolding answered
answered_result n (accepted, ring) = refl
answered_result n (refused _, ring) = refl

answered-push :
    (k pt_len : ℕ) (ring : Spsc SecureBlock) (q : List SecureBlock) (block : SecureBlock)
    → Holds k ring q
    → let (res, ring') = answered pt_len (push ring block) in
      (res ≡ (if ltb (length q) (2 ^ k) then ok pt_len else err ring_full))
      × Holds k ring' (enqueue (2 ^ k) q block).1
unfolding enqueue
answered-push k pt_len ring q block h =
    let (result, held) = push-Holds block h in
    let room : is_ok (push ring block).0 ≡ ltb (length q) (2 ^ k) = ground (arith, result) in
    (
      answered_result pt_len (push ring block)
          ∙ ap (λ b. if b then ok pt_len else err ring_full) room,
      subst (λ r. Holds k r (enqueue (2 ^ k) q block).1)
          (sym (answered_ring pt_len (push ring block))) held,
    )

module _ {A C : Type 0} (aes_ops : Aead A) (cha_ops : Aead C) (a : IsAead aes_ops)
    (c : IsAead cha_ops) where
  -- What one end seals, the other end, with the same key and associated data, puts into its ring as
  -- a block of that plaintext behind what is in the ring, if the ring has room; a full ring keeps
  -- what it has, and the answer says so. The envelope must fit a block of `n` bytes, fewer than 2 ^ 32.
  pub decrypt_into_ring-seal_to_vec :
      (n k : ℕ) (box other : CryptoBox A C) (pt aad : List ℕ) (ring : Spsc SecureBlock)
      (q : List SecureBlock) {sealed : List ℕ}
      → length box.salt ≡ 4
      → other.key ≡ box.key
      → nonce_len + length pt + tag_len ≤ n
      → n < u32_mod
      → Holds k ring q
      → (seal_to_vec aes_ops cha_ops pt aad box).0 ≡ ok sealed
      → let (res, ring') = decrypt_into_ring aes_ops cha_ops n sealed aad other ring in
        (block : SecureBlock) × (as_slice block ≡ pt)
        × (res ≡ (if ltb (length q) (2 ^ k) then ok (length pt) else err ring_full))
        × Holds k ring' (enqueue (2 ^ k) q block).1
  unfolding as_slice
  decrypt_into_ring-seal_to_vec n k box other pt aad ring q {sealed} hs hk fits word h e =
      let (ct, tag, _, _, size) = sealed_parts aes_ops cha_ops a c box pt aad hs e in
      let (junk, opened) = open_in_place-seal_to_vec aes_ops cha_ops a c box other pt aad hs hk e in
      let small : ltb n (length sealed) ≡ false = ground (arith, size) in
      let block = block_of aes_ops cha_ops n (length sealed) (length pt) (pt ++ junk) in
      let len : length pt % u32_mod ≡ length pt = omega (arith, fits, word) in
      let rest = drop (length sealed) (new_block n).buf in
      let run =
        into_ring aes_ops cha_ops n (length pt) sealed aad (pt ++ junk) other ring small opened in
      let (answer, held) = answered-push k (length pt) ring q block h in
      (
        block,
        ap (λ i. take i block.buf) len
            ∙ ap (take (length pt)) (append_assoc pt junk rest)
            ∙ take-append (length pt) pt (junk ++ rest) refl,
        ap (λ r. r.0) run ∙ answer,
        subst (λ (r : Result ℕ × Spsc SecureBlock). Holds k r.1 (enqueue (2 ^ k) q block).1)
            (sym run) held,
      )
