-- ===== src/Nacl.antt =====
-- The calls that the program makes of TweetNaCl, a library that the repository carries a copy of.
use vexconnect.Prelude.{ℕ, ◌≤◌, ◌<◌, ◌≡◌, List, Option, none, some, Bytes, length, take, replicate}

pub record Nacl : Type 0 where
  -- `crypto_hash`
  pub hash : List ℕ → List ℕ
  -- `crypto_secretbox` and `crypto_secretbox_open`: the text, the nonce and the key; `none` is -1
  pub secretbox : List ℕ → List ℕ → List ℕ → Option (List ℕ)
  pub secretbox_open : List ℕ → List ℕ → List ℕ → Option (List ℕ)
  -- the public and the secret key that the key generators make of the 32 bytes that they draw
  pub sign_keypair : List ℕ → List ℕ × List ℕ
  pub box_keypair : List ℕ → List ℕ × List ℕ

-- Documented: the sizes; a hash, a key and the box of bytes consist of bytes; a text stands behind 32 zero bytes, and its box has 16 zero bytes in front;
-- a box opens with the nonce and key that made it; a box shorter than 32 bytes is refused.
pub record IsNacl (nacl : Nacl) : Type 0 where
  pub hash_size : (m : List ℕ) → length (nacl.hash m) ≡ 64
  pub hash_bytes : (m : List ℕ) → Bytes (nacl.hash m)
  pub box_made : (m n k : List ℕ) → 32 ≤ length m → (c : List ℕ) × (nacl.secretbox m n k ≡ some c)
  pub box_size : (m n k c : List ℕ) → nacl.secretbox m n k ≡ some c → length c ≡ length m
  pub box_zeros : (m n k c : List ℕ) → nacl.secretbox m n k ≡ some c → take 16 c ≡ replicate 16 0
  pub box_bytes : (m n k c : List ℕ) → nacl.secretbox m n k ≡ some c → Bytes m → Bytes c
  pub open_box :
      (m n k c : List ℕ)
      → take 32 m ≡ replicate 32 0
      → nacl.secretbox m n k ≡ some c
      → nacl.secretbox_open c n k ≡ some m
  pub open_size : (c n k m : List ℕ) → nacl.secretbox_open c n k ≡ some m → length m ≡ length c
  pub open_short : (c n k : List ℕ) → length c < 32 → nacl.secretbox_open c n k ≡ none
  pub sign_keypair_size :
      (seed : List ℕ)
      → (length (nacl.sign_keypair seed).0 ≡ 32) × (length (nacl.sign_keypair seed).1 ≡ 64)
  pub sign_keypair_bytes : (seed : List ℕ) → Bytes (nacl.sign_keypair seed).0
  pub box_keypair_size :
      (seed : List ℕ)
      → (length (nacl.box_keypair seed).0 ≡ 32) × (length (nacl.box_keypair seed).1 ≡ 32)
