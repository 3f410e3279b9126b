-- ===== src/Sec/Cipher/Sealing.antt =====
-- What was sealed by crates/tpt-t-sec/src/cipher.rs, opened again.
use tpt_teleop.Prelude.{
  ℕ, ◌+◌, ◌-◌, ◌≤◌, ◌≡◌, refl, ap, ◌∙◌, arith, Option-cases, inl, inr, false, none, some, List, [],
  ◌++◌, append-nil, length, length-append, take, drop, replicate, length-replicate, take_all, ltb,
}
use tpt_teleop.Prelude.Bytes.{
  to_le_bytes, length-to_le_bytes, take-append, drop-append_full, drop_all,
}
use tpt_teleop.Sec.Identity.{ok, err, crypto}
use tpt_teleop.Sec.Cipher.{
  nonce_len, tag_len, Aead, Inner, aes, cha, CryptoBox, next_nonce, encrypt_with, decrypt_with,
  seal_into, truncate, seal_to_vec, open_in_place, open_into,
}

-- What the documentation of the crates says of a cipher: the ciphertext is as long as the plaintext,
-- the tag has 16 bytes, and with the same key, nonce and associated data they give the plaintext back.
pub record IsAead {K : Type 0} (ops : Aead K) : Type 0 where
  pub sizes :
      (k : K) (nonce aad pt : List ℕ) {ct tag : List ℕ}
      → ops.encrypt k nonce aad pt ≡ some (ct, tag)
      → (length ct ≡ length pt) × (length tag ≡ tag_len)
  pub opens :
      (k : K) (nonce aad pt : List ℕ) {ct tag : List ℕ}
      → ops.encrypt k nonce aad pt ≡ some (ct, tag)
      → ops.decrypt k nonce aad ct tag ≡ some pt

module _ {A C : Type 0} (aes_ops : Aead A) (cha_ops : Aead C) (a : IsAead aes_ops)
    (c : IsAead cha_ops) where
  sizes :
      (k : Inner A C) (nonce aad pt : List ℕ) {ct tag : List ℕ}
      → encrypt_with aes_ops cha_ops k nonce aad pt ≡ some (ct, tag)
      → (length ct ≡ length pt) × (length tag ≡ tag_len)
  unfolding encrypt_with
  sizes (aes k) nonce aad pt e = a.sizes k nonce aad pt e
  sizes (cha k) nonce aad pt e = c.sizes k nonce aad pt e

  opens :
      (k : Inner A C) (nonce aad pt : List ℕ) {ct tag : List ℕ}
      → encrypt_with aes_ops cha_ops k nonce aad pt ≡ some (ct, tag)
      → decrypt_with aes_ops cha_ops k nonce aad ct tag ≡ some pt
  unfolding encrypt_with decrypt_with
  opens (aes k) nonce aad pt e = a.opens k nonce aad pt e
  opens (cha k) nonce aad pt e = c.opens k nonce aad pt e

  open_parts :
      (box : CryptoBox A C) (buf nonce ct tag aad pt : List ℕ) (n : ℕ)
      → ltb (length buf) (nonce_len + tag_len) ≡ false
      → length buf - nonce_len - tag_len ≡ n
      → take nonce_len buf ≡ nonce
      → take n (drop nonce_len buf) ≡ ct
      → drop n (drop nonce_len buf) ≡ tag
      → decrypt_with aes_ops cha_ops box.key nonce aad ct tag ≡ some pt
      → open_in_place aes_ops cha_ops buf aad box ≡ ok (n, pt ++ drop n (nonce ++ (pt ++ tag)))
  unfolding open_in_place
  open_parts box buf nonce ct tag aad pt n long size front text rest plain =
      rw (open_in_place, long, size, front, text, rest, plain, size, front, rest) refl

  -- An envelope is opened to its plaintext, at the front of the buffer.
  pub open_lem :
      (box : CryptoBox A C) (nonce ct tag aad pt : List ℕ)
      → length nonce ≡ nonce_len
      → encrypt_with aes_ops cha_ops box.key nonce aad pt ≡ some (ct, tag)
      → open_in_place aes_ops cha_ops (nonce ++ (ct ++ tag)) aad box
        ≡ ok (length pt, pt ++ drop (length pt) (nonce ++ (pt ++ tag)))
  open_lem box nonce ct tag aad pt hn e =
      let (size, tag_size) = sizes box.key nonce aad pt e in
      let all = length-append nonce (ct ++ tag) in
      let body = length-append ct tag in
      let behind = drop-append_full nonce_len nonce (ct ++ tag) hn in
      open_parts box (nonce ++ (ct ++ tag)) nonce ct tag aad pt (length pt)
        (ground (arith, all, body, size, tag_size, hn))
        (omega (arith, all, body, size, tag_size, hn)) (take-append nonce_len nonce (ct ++ tag) hn)
        (ap (take (length pt)) behind ∙ take-append (length pt) ct tag size)
        (ap (drop (length pt)) behind ∙ drop-append_full (length pt) ct tag size)
        (opens box.key nonce aad pt e)

  seal_into_lem :
      (box : CryptoBox A C) (pt aad out ct tag : List ℕ)
      → ltb (length out) (nonce_len + length pt + tag_len) ≡ false
      → encrypt_with aes_ops cha_ops box.key (next_nonce box).0 aad pt ≡ some (ct, tag)
      → seal_into aes_ops cha_ops pt aad out box ≡ (
        ok (
          nonce_len + length pt + tag_len,
          (next_nonce box).0 ++ (ct ++ (tag ++ drop (nonce_len + length pt + tag_len) out)),
        ),
        (next_nonce box).1,
      )
  unfolding seal_into
  seal_into_lem box pt aad out ct tag room e = rw (seal_into, room, e) refl

  pub length-next_nonce :
      (box : CryptoBox A C) → length box.salt ≡ 4 → length (next_nonce box).0 ≡ nonce_len
  unfolding next_nonce
  length-next_nonce box h =
      omega (arith, h, length-append (to_le_bytes 8 box.ctr) box.salt, length-to_le_bytes 8 box.ctr)

  room_for : (n : ℕ) → ltb (length (replicate {A = ℕ} n 0)) n ≡ false
  room_for n = ground (arith, length-replicate {A = ℕ} n 0)

  -- Sealing makes an envelope of the next nonce, the ciphertext and the tag.
  pub seal_lem :
      (box : CryptoBox A C) (pt aad ct tag : List ℕ)
      → length box.salt ≡ 4
      → encrypt_with aes_ops cha_ops box.key (next_nonce box).0 aad pt ≡ some (ct, tag)
      → seal_to_vec aes_ops cha_ops pt aad box
        ≡ (ok ((next_nonce box).0 ++ (ct ++ tag)), (next_nonce box).1)
  unfolding seal_to_vec truncate
  seal_lem box pt aad ct tag hs e =
      let (size, tag_size) = sizes box.key (next_nonce box).0 aad pt e in
      let need : ℕ = nonce_len + length pt + tag_len in
      let out : List ℕ = replicate need 0 in
      let whole : List ℕ = (next_nonce box).0 ++ (ct ++ tag) in
      let room = room_for need in
      let nothing : drop need out ≡ [] =
        drop_all need out (omega (arith, length-replicate {A = ℕ} need 0)) in
      let full : take need whole ≡ whole = take_all need whole (
        omega (
          arith,
          size,
          tag_size,
          length-next_nonce box hs,
          length-append (next_nonce box).0 (ct ++ tag),
          length-append ct tag,
        )) in
      let emptied : tag ++ drop need out ≡ tag = rw nothing (append-nil tag) in
      ap truncate (seal_into_lem box pt aad out ct tag room e)
      ∙ rw emptied (ap (λ bytes. (ok bytes, (next_nonce box).1)) full)

  seal_into_failed :
      (box : CryptoBox A C) (pt aad out : List ℕ)
      → ltb (length out) (nonce_len + length pt + tag_len) ≡ false
      → encrypt_with aes_ops cha_ops box.key (next_nonce box).0 aad pt ≡ none
      → seal_into aes_ops cha_ops pt aad out box ≡ (err crypto, (next_nonce box).1)
  unfolding seal_into
  seal_into_failed box pt aad out room e = rw (seal_into, room, e) refl

  -- A cipher that fails gives the error, and the nonce is spent.
  pub seal_failed :
      (box : CryptoBox A C) (pt aad : List ℕ)
      → encrypt_with aes_ops cha_ops box.key (next_nonce box).0 aad pt ≡ none
      → seal_to_vec aes_ops cha_ops pt aad box ≡ (err crypto, (next_nonce box).1)
  unfolding seal_to_vec truncate
  seal_failed box pt aad e =
      let need : ℕ = nonce_len + length pt + tag_len in
      ap truncate (seal_into_failed box pt aad (replicate need 0) (room_for need) e)

  -- An envelope that was sealed has its parts.
  pub sealed_parts :
      (box : CryptoBox A C) (pt aad : List ℕ) {sealed : List ℕ}
      → length box.salt ≡ 4
      → (seal_to_vec aes_ops cha_ops pt aad box).0 ≡ ok sealed
      → (ct : List ℕ) × (tag : List ℕ) × (sealed ≡ (next_nonce box).0 ++ (ct ++ tag))
        × (encrypt_with aes_ops cha_ops box.key (next_nonce box).0 aad pt ≡ some (ct, tag))
        × (length sealed ≡ nonce_len + length pt + tag_len)
  sealed_parts box pt aad {sealed} hs e =
      elim (Option-cases (encrypt_with aes_ops cha_ops box.key (next_nonce box).0 aad pt)) [
        | inl failed ↦ absurd (cc (ap (λ r. r.0) (seal_failed box pt aad failed), e))
        | inr ((ct, tag), made) ↦
            let spelled : sealed ≡ (next_nonce box).0 ++ (ct ++ tag) =
              cc (ap (λ r. r.0) (seal_lem box pt aad ct tag hs made), e) in
            let (size, tag_size) = sizes box.key (next_nonce box).0 aad pt made in
            (
              ct,
              tag,
              spelled,
              made,
              omega (
                arith,
                size,
                tag_size,
                ap length spelled,
                length-next_nonce box hs,
                length-append (next_nonce box).0 (ct ++ tag),
                length-append ct tag,
              ),
            )
      ]

  -- The plaintext comes to the front of the buffer.
  pub open_in_place-seal_to_vec :
      (box other : CryptoBox A C) (pt aad : List ℕ) {sealed : List ℕ}
      → length box.salt ≡ 4
      → other.key ≡ box.key
      → (seal_to_vec aes_ops cha_ops pt aad box).0 ≡ ok sealed
      → (junk : List ℕ) × (open_in_place aes_ops cha_ops sealed aad other
          ≡ ok (length pt, pt ++ junk))
  open_in_place-seal_to_vec box other pt aad {sealed} hs hk e =
      let (ct, tag, spelled, made, _) = sealed_parts box pt aad hs e in
      let nonce = (next_nonce box).0 in
      let same : encrypt_with aes_ops cha_ops other.key nonce aad pt ≡ some (ct, tag) =
        ap (λ k. encrypt_with aes_ops cha_ops k nonce aad pt) hk ∙ made in
      (
        drop (length pt) (nonce ++ (pt ++ tag)),
        ap (λ b. open_in_place aes_ops cha_ops b aad other) spelled
            ∙ open_lem other nonce ct tag aad pt (length-next_nonce box hs) same,
      )

  open_into_lem :
      (box : CryptoBox A C) (sealed aad out pt junk : List ℕ) (n : ℕ)
      → length sealed ≡ nonce_len + n + tag_len
      → n ≤ length out
      → open_in_place aes_ops cha_ops sealed aad box ≡ ok (n, pt ++ junk)
      → open_into aes_ops cha_ops sealed aad out box ≡ ok (n, take n (pt ++ junk) ++ drop n out)
  unfolding open_into
  open_into_lem box sealed aad out pt junk n size room e =
      let long : ltb (length sealed) (nonce_len + tag_len) ≡ false = ground (arith, size) in
      let fits : ltb (length out) (length sealed - nonce_len - tag_len) ≡ false =
        ground (arith, size) in
      rw (open_into, long, fits, e) refl

  -- What was sealed is opened, by every box with the same key and with the same associated data, to the
  -- plaintext, in a buffer that has room for it; the rest of the buffer is as it was.
  pub open_into-seal_to_vec :
      (box other : CryptoBox A C) (pt aad out : List ℕ) {sealed : List ℕ}
      → length box.salt ≡ 4
      → other.key ≡ box.key
      → length pt ≤ length out
      → (seal_to_vec aes_ops cha_ops pt aad box).0 ≡ ok sealed
      → open_into aes_ops cha_ops sealed aad out other ≡ ok (length pt, pt ++ drop (length pt) out)
  open_into-seal_to_vec box other pt aad out {sealed} hs hk room e =
      let (ct, tag, _, _, size) = sealed_parts box pt aad hs e in
      let (junk, opened) = open_in_place-seal_to_vec box other pt aad hs hk e in
      open_into_lem other sealed aad out pt junk (length pt) size room opened
      ∙ rw (take-append (length pt) pt junk refl) refl
