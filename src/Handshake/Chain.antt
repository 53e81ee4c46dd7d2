-- ===== src/Handshake/Chain.antt =====
-- The hashes, MACs and key derivation of boringtun/src/noise/handshake.rs, and the chain that both
-- sides of a handshake keep.
use pq_boringtun.Base.{ℕ, ◌==◌, if◌then◌else◌, [], ◌∷◌, ◌++◌, Option, none, some, length, replicate}
use pq_boringtun.Base.Bytes.{Bytes, to_le}
use pq_boringtun.Errors.{Result, ok, panics, ◌>>=◌, unwrap, ok_or, invalid_aead_tag}
use pq_boringtun.Crypto.{Crypto}

abbrev pub label_mac1 : Bytes
label_mac1 = 109 ∷ 97 ∷ 99 ∷ 49 ∷ 45 ∷ 45 ∷ 45 ∷ 45 ∷ []

abbrev pub label_cookie : Bytes
label_cookie = 99 ∷ 111 ∷ 111 ∷ 107 ∷ 105 ∷ 101 ∷ 45 ∷ 45 ∷ []

pub initial_chain_key : Bytes
initial_chain_key =
    96 ∷ 226 ∷ 109 ∷ 174 ∷ 243 ∷ 39 ∷ 239 ∷ 192 ∷ 46 ∷ 195 ∷ 53 ∷ 226 ∷ 160 ∷ 37 ∷ 210 ∷ 208 ∷ 22
    ∷ 235 ∷ 66 ∷ 6 ∷ 248 ∷ 114 ∷ 119 ∷ 245 ∷ 45 ∷ 56 ∷ 209 ∷ 152 ∷ 139 ∷ 120 ∷ 205 ∷ 54 ∷ []

pub initial_chain_hash : Bytes
initial_chain_hash =
    34 ∷ 17 ∷ 179 ∷ 97 ∷ 8 ∷ 26 ∷ 197 ∷ 102 ∷ 105 ∷ 18 ∷ 67 ∷ 219 ∷ 69 ∷ 138 ∷ 213 ∷ 50 ∷ 45 ∷ 156
    ∷ 108 ∷ 102 ∷ 34 ∷ 147 ∷ 232 ∷ 183 ∷ 14 ∷ 225 ∷ 156 ∷ 101 ∷ 186 ∷ 7 ∷ 158 ∷ 243 ∷ []

pub initial_chain_key_pq : Bytes
initial_chain_key_pq =
    92 ∷ 212 ∷ 118 ∷ 82 ∷ 10 ∷ 10 ∷ 246 ∷ 131 ∷ 71 ∷ 61 ∷ 77 ∷ 160 ∷ 151 ∷ 184 ∷ 203 ∷ 249 ∷ 86 ∷ 84
    ∷ 163 ∷ 106 ∷ 11 ∷ 2 ∷ 99 ∷ 179 ∷ 63 ∷ 208 ∷ 66 ∷ 103 ∷ 187 ∷ 164 ∷ 135 ∷ 172 ∷ []

pub initial_chain_hash_pq : Bytes
initial_chain_hash_pq =
    230 ∷ 124 ∷ 28 ∷ 213 ∷ 149 ∷ 146 ∷ 162 ∷ 100 ∷ 240 ∷ 251 ∷ 122 ∷ 175 ∷ 64 ∷ 160 ∷ 57 ∷ 141 ∷ 94
    ∷ 165 ∷ 206 ∷ 197 ∷ 218 ∷ 229 ∷ 9 ∷ 122 ∷ 57 ∷ 38 ∷ 118 ∷ 2 ∷ 81 ∷ 247 ∷ 29 ∷ 235 ∷ []

-- Two updates hash the concatenation.
unfoldable pub b2s_hash : Crypto → Bytes → Bytes → Bytes
b2s_hash c data1 data2 = c.blake2s (data1 ++ data2)

unfoldable pub b2s_hmac : Crypto → Bytes → Bytes → Bytes
b2s_hmac c key data1 = c.hmac_blake2s key data1

unfoldable pub b2s_hmac2 : Crypto → Bytes → Bytes → Bytes → Bytes
b2s_hmac2 c key data1 data2 = c.hmac_blake2s key (data1 ++ data2)

unfoldable pub b2s_keyed_mac_16 : Crypto → Bytes → Bytes → Bytes
b2s_keyed_mac_16 c key data1 = c.blake2s_mac 16 key data1

unfoldable pub b2s_keyed_mac_16_2 : Crypto → Bytes → Bytes → Bytes → Bytes
b2s_keyed_mac_16_2 c key data1 data2 = c.blake2s_mac 16 key (data1 ++ data2)

unfoldable pub b2s_mac_24 : Crypto → Bytes → Bytes → Bytes
b2s_mac_24 c key data1 = c.blake2s_mac 24 key data1

-- The ciphertext with its tag behind it.
unfoldable pub aead_chacha20_seal : Crypto → Bytes → ℕ → Bytes → Bytes → Result Bytes
aead_chacha20_seal c key counter text aad =
    unwrap (c.aead.seal key (replicate 4 0 ++ to_le 8 counter) aad text) >>= λ sealed.
    ok (sealed.0 ++ sealed.1)

-- `size` is the length of the buffer that the plaintext is copied to.
unfoldable pub aead_chacha20_open : Crypto → ℕ → Bytes → ℕ → Bytes → Bytes → Result Bytes
aead_chacha20_open c size key counter text aad =
    ok_or (c.aead.unseal key (replicate 4 0 ++ to_le 8 counter) aad text) invalid_aead_tag
    >>= λ plain. if length plain == size then ok plain else panics

-- `chaining_key` and `hash`.
pub record Chain : Type 0 where
  pub chaining_key : Bytes
  pub hash : Bytes

module _ (c : Crypto) where
  -- `hash = b2s_hash(&hash, data)`
  unfoldable pub mix_hash : Chain → Bytes → Chain
  mix_hash k input = record k { hash = b2s_hash c k.hash input }

  -- `temp = b2s_hmac(&chaining_key, data); chaining_key = b2s_hmac(&temp, &[0x01])`
  unfoldable pub mix_key : Chain → Bytes → Chain
  mix_key k input = record k {
    chaining_key = b2s_hmac c (b2s_hmac c k.chaining_key input) (1 ∷ []);
  }

  -- The same, with `key = b2s_hmac2(&temp, &chaining_key, &[0x02])`.
  unfoldable pub mix_key_and_derive : Chain → Bytes → Chain × Bytes
  mix_key_and_derive k input =
      let temp = b2s_hmac c k.chaining_key input in
      let chaining_key = b2s_hmac c temp (1 ∷ []) in
      (record k { chaining_key = chaining_key }, b2s_hmac2 c temp chaining_key (2 ∷ []))

  -- The preshared key goes into the chaining key, the hash and a key.
  unfoldable pub mix_psk : Chain → Option Bytes → Chain × Bytes
  mix_psk k preshared_key =
      let psk : Bytes = elim preshared_key [ some key ↦ key | none ↦ replicate 32 0 ] in
      let temp = b2s_hmac c k.chaining_key psk in
      let chaining_key = b2s_hmac c temp (1 ∷ []) in
      let temp2 = b2s_hmac2 c temp chaining_key (2 ∷ []) in
      let key = b2s_hmac2 c temp temp2 (3 ∷ []) in
      (record { chaining_key = chaining_key; hash = b2s_hash c k.hash temp2 }, key)

  -- `temp2` and `temp3`, the initiator's sending and receiving keys.
  unfoldable pub derive_keys : Chain → Bytes × Bytes
  derive_keys k =
      let temp1 = b2s_hmac c k.chaining_key [] in
      let temp2 = b2s_hmac c temp1 (1 ∷ []) in
      let temp3 = b2s_hmac2 c temp1 temp2 (2 ∷ []) in (temp2, temp3)

  -- The chain up to the key of `encrypted_static`, from the responder's static key, the
  -- initiator's ephemeral key and their shared secret.
  unfoldable pub begin_chain : Chain → Bytes → Bytes → Bytes → Chain × Bytes
  begin_chain k responder_static ephemeral ephemeral_shared =
      mix_key_and_derive (mix_key (mix_hash (mix_hash k responder_static) ephemeral) ephemeral)
        ephemeral_shared

  -- The chain over a response's ephemeral key, from the two shared secrets that it takes part in.
  unfoldable pub response_chain : Chain → Bytes → Bytes → Bytes → Chain
  response_chain k ephemeral ephemeral_shared static_shared =
      mix_key (mix_key (mix_key (mix_hash k ephemeral) ephemeral) ephemeral_shared) static_shared
