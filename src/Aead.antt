-- ===== src/Aead.antt =====
-- The AEAD cipher that the program takes from the crate `ring` (ChaCha20-Poly1305), as an
-- interface: its two operations and what their documentation promises.
use pq_boringtun.Base.{ℕ, ◌+◌, ◌≤◌, ◌≡◌, ◌++◌, Option, some, length}
use pq_boringtun.Base.Bytes.{Bytes}

-- `seal_in_place_separate_tag` returns the ciphertext and the tag, or fails; `open_in_place`
-- returns the plaintext, or fails. The arguments are the key, the nonce, the additional data and
-- the text.
pub record Aead : Type 0 where
  pub seal : Bytes → Bytes → Bytes → Bytes → Option (Bytes × Bytes)
  pub unseal : Bytes → Bytes → Bytes → Bytes → Option Bytes

-- Sealing succeeds up to a limit on the plaintext's length, and keeps that length; the tag has 16
-- bytes; opening what was sealed gives the plaintext; opening strips the tag.
pub record AeadLaws (a : Aead) (limit : ℕ) : Type 0 where
  pub seals :
      (key nonce aad text : Bytes)
      → length text ≤ limit
      → (ct : Bytes) × (tag : Bytes) × (a.seal key nonce aad text ≡ some (ct, tag))
  pub seal_sizes :
      (key nonce aad text ct tag : Bytes)
      → a.seal key nonce aad text ≡ some (ct, tag)
      → (length ct ≡ length text) × (length tag ≡ 16)
  pub unseal_sealed :
      (key nonce aad text ct tag : Bytes)
      → a.seal key nonce aad text ≡ some (ct, tag)
      → a.unseal key nonce aad (ct ++ tag) ≡ some text
  pub unseal_size :
      (key nonce aad ct text : Bytes)
      → a.unseal key nonce aad ct ≡ some text
      → length text + 16 ≡ length ct
