-- ===== src/Handshake/Seal.antt =====
-- Two parties of a handshake: the parameters that belong together, and that what one seals the
-- other opens.
use pq_boringtun.Base.{ℕ, ◌+◌, ◌≤◌, ◌≡◌, arith, ◌++◌, length, replicate, ==_refl, length-append}
use pq_boringtun.Base.{Option}
use pq_boringtun.Base.Bytes.{Bytes, to_le}
use pq_boringtun.Errors.{ok}
use pq_boringtun.Crypto.{Crypto, CryptoLaws}
use pq_boringtun.Handshake.{NoiseParams}
use pq_boringtun.Handshake.Chain.{aead_chacha20_seal, aead_chacha20_open}
use pq_boringtun.Handshake.Completion.{new_params}

-- The parameters of a party, from its static secret, that of its peer and the preshared key.
abbrev pub params_of : Crypto → Bytes → Bytes → Option Bytes → NoiseParams
params_of c own peer psk = new_params c own (c.public_key own) (c.public_key peer) psk

-- A ciphertext that is returned for `text`, with its tag, and opens to it.
pub record SealOf (c : Crypto) (key : Bytes) (counter : ℕ) (text aad ct : Bytes) : Type 0 where
  pub seals : aead_chacha20_seal c key counter text aad ≡ ok ct
  pub size : length ct ≡ length text + 16
  pub opens :
      (size : ℕ) → length text ≡ size → aead_chacha20_open c size key counter ct aad ≡ ok text

module _ (c : Crypto) (limit : ℕ) (laws : CryptoLaws c limit) where
  pub seal-SealOf :
      (key : Bytes) (counter : ℕ) (text aad : Bytes)
      → length text ≤ limit
      → (ct : Bytes) × SealOf c key counter text aad ct
  unfolding aead_chacha20_seal aead_chacha20_open
  seal-SealOf key counter text aad fits =
      let a = laws.aead_laws in
      let nonce = replicate 4 0 ++ to_le 8 counter in
      let (ct, tag, e) = a.seals key nonce aad text fits in
      let (n, m) = a.seal_sizes key nonce aad text ct tag e in
      (
        ct ++ tag,
        record {
          seals = rw e;
          size = omega (arith, length-append ct tag);
          opens = λ size h.
              rw (← h, a.unseal_sealed key nonce aad text ct tag e, ==_refl (length text));
        },
      )
