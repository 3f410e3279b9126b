-- ===== src/Sec/Cipher/Toy.antt =====
-- A cipher that leaves the plaintext as it is and whose tag is zeros, to run crates/tpt-t-sec/src/cipher.rs with.
use tpt_teleop.Prelude.{ℕ, ◌≡◌, sym, ap, some, List, [], length, replicate}
use tpt_teleop.Sec.Cipher.{Aead, CryptoBox, aes, aes256_gcm}
use tpt_teleop.Sec.Cipher.Sealing.{IsAead}

abbrev pub clear : Aead (List ℕ)
clear = record {
  new_from_slice = λ key. some key;
  encrypt = λ k nonce aad pt. some (pt, replicate 16 0);
  decrypt = λ k nonce aad ct tag. some ct;
}

some_inj : {A : Type 0} {a b : A} → some a ≡ some b → a ≡ b
some_inj e = cc e

pub clear-IsAead : IsAead clear
clear-IsAead = record {
  sizes = λ k nonce aad pt e.
      let parts = some_inj e in
      (ap (λ r. length r.0) (sym parts), ap (λ r. length r.1) (sym parts));
  opens = λ k nonce aad pt e. ap (λ r. some r.0) (sym (some_inj e));
}

abbrev pub box_from : List ℕ → CryptoBox (List ℕ) (List ℕ)
box_from salt = record { key = aes []; suite = aes256_gcm; ctr = 0; salt = salt }
