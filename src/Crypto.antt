-- ===== src/Crypto.antt =====
-- The cryptography that the program takes from third-party crates (blake2, hmac, x25519-dalek,
-- ring, chacha20poly1305, ml-kem), as an interface: the operations and what their documentation
-- promises.
use pq_boringtun.Base.{ℕ, ◌≤◌, ◌≡◌, ◌↔◌, Bool, true, Option, some, length}
use pq_boringtun.Base.Bytes.{Bytes}
use pq_boringtun.Aead.{Aead, AeadLaws}

pub record Crypto : Type 0 where
  -- ChaCha20-Poly1305 and XChaCha20-Poly1305
  pub aead : Aead
  pub xaead : Aead
  -- BLAKE2s-256, HMAC over it, and keyed BLAKE2s with an output of the given size
  pub blake2s : Bytes → Bytes
  pub hmac_blake2s : Bytes → Bytes → Bytes
  pub blake2s_mac : ℕ → Bytes → Bytes → Bytes
  -- X25519: the public key of a secret, and the shared secret of a secret and a public key
  pub public_key : Bytes → Bytes
  pub diffie_hellman : Bytes → Bytes → Bytes
  -- constant-time comparison
  pub verify_slices_are_equal : Bytes → Bytes → Bool
  -- ML-KEM-768: key pair (decapsulation key, encapsulation key) and encapsulation (ciphertext,
  -- shared secret) from randomness; the validity of an encapsulation key; decapsulation
  pub mlkem_generate : Bytes → Bytes × Bytes
  pub mlkem_key_is_valid : Bytes → Bool
  pub mlkem_encapsulate : Bytes → Bytes → Bytes × Bytes
  pub mlkem_decapsulate : Bytes → Bytes → Option Bytes

pub record CryptoLaws (c : Crypto) (limit : ℕ) : Type 0 where
  pub aead_laws : AeadLaws c.aead limit
  pub xaead_laws : AeadLaws c.xaead limit
  pub room : 32 ≤ limit
  pub dh_comm :
      (s t : Bytes) → c.diffie_hellman s (c.public_key t) ≡ c.diffie_hellman t (c.public_key s)
  pub public_key_size : (s : Bytes) → length (c.public_key s) ≡ 32
  pub mac_size : (n : ℕ) (key text : Bytes) → length (c.blake2s_mac n key text) ≡ n
  pub equal_iff : (x y : Bytes) → (c.verify_slices_are_equal x y ≡ true) ↔ (x ≡ y)
  pub mlkem_valid : (r : Bytes) → c.mlkem_key_is_valid (c.mlkem_generate r).1 ≡ true
  pub mlkem_key_size : (r : Bytes) → length (c.mlkem_generate r).1 ≡ 1184
  pub mlkem_ciphertext_size : (ek r : Bytes) → length (c.mlkem_encapsulate ek r).0 ≡ 1088
  pub mlkem_correct :
      (r s : Bytes)
      → c.mlkem_decapsulate (c.mlkem_generate r).0 (c.mlkem_encapsulate (c.mlkem_generate r).1 s).0
        ≡ some (c.mlkem_encapsulate (c.mlkem_generate r).1 s).1
