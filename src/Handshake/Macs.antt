-- ===== src/Handshake/Macs.antt =====
-- What `append_mac1_and_mac2` adds to a message.
use pq_boringtun.Base.{
  ℕ, ◌≡◌, arith, ◌++◌, length, replicate, inl, inr, append_assoc, length-append, Option-cases,
}
use pq_boringtun.Base.Bytes.{Bytes, to_le}
use pq_boringtun.Crypto.{Crypto, CryptoLaws}
use pq_boringtun.Packet.{HandshakeInit, init, PqHandshakeInit, pq_init, HandshakeResponse, response}
use pq_boringtun.Packet.{PqHandshakeResponse, pq_response}
use pq_boringtun.Packet.Format.{format}
use pq_boringtun.Handshake.{Handshake}
use pq_boringtun.Handshake.Chain.{b2s_keyed_mac_16}
use pq_boringtun.Handshake.Initiation.{append_mac1_and_mac2}

-- 32 bytes stand behind the message, with a cookie or without one.
pub append_macs :
    (c : Crypto) (limit : ℕ) (laws : CryptoLaws c limit) (h : Handshake) (index : ℕ)
    (message : Bytes)
    → (rest : Bytes) × ((append_mac1_and_mac2 c h index message).1 ≡ message ++ rest)
      × (length rest ≡ 32)
unfolding append_mac1_and_mac2 b2s_keyed_mac_16
append_macs c limit laws h index message =
    let key = h.params.sending_mac1_key in
    let mac1 = b2s_keyed_mac_16 c key message in
    let n = laws.mac_size 16 key message in
    elim (Option-cases h.cookies.write_cookie) [
      | inl e ↦ (mac1 ++ replicate 16 0, rw e, omega (arith, length-append mac1 (replicate 16 0)))
      | inr (cookie, e) ↦
          let mac2 = b2s_keyed_mac_16 c cookie (message ++ mac1) in
          (
            mac1 ++ mac2,
            rw e,
            omega (arith, length-append mac1 mac2, laws.mac_size 16 cookie (message ++ mac1)),
          )
    ]

-- The body of each message, as the code writes it, and the wire format.
module _ (rest : Bytes) where
  pub init_layout :
      (p : HandshakeInit)
      → (to_le 4 1
            ++ (to_le 4 p.sender_idx
                ++ (p.unencrypted_ephemeral ++ (p.encrypted_static ++ p.encrypted_timestamp))))
          ++ rest
        ≡ format (init p) rest
  unfolding format
  init_layout p = simp (append_assoc {0})

  pub pq_init_layout :
      (p : PqHandshakeInit)
      → (to_le 4 5
            ++ (to_le 4 p.sender_idx
                ++ (p.unencrypted_ephemeral
                    ++ (p.encrypted_static
                        ++ (p.encrypted_timestamp ++ p.mlkem_ephemeral_public)))))
          ++ rest
        ≡ format (pq_init p) rest
  unfolding format
  pq_init_layout p = simp (append_assoc {0})

  pub response_layout :
      (p : HandshakeResponse)
      → (to_le 4 2
            ++ (to_le 4 p.sender_idx
                ++ (to_le 4 p.receiver_idx ++ (p.unencrypted_ephemeral ++ p.encrypted_nothing))))
          ++ rest
        ≡ format (response p) rest
  unfolding format
  response_layout p = simp (append_assoc {0})

  pub pq_response_layout :
      (p : PqHandshakeResponse)
      → (to_le 4 6
            ++ (to_le 4 p.sender_idx
                ++ (to_le 4 p.receiver_idx
                    ++ (p.unencrypted_ephemeral ++ (p.encrypted_nothing ++ p.mlkem_ciphertext)))))
          ++ rest
        ≡ format (pq_response p) rest
  unfolding format
  pq_response_layout p = simp (append_assoc {0})
