-- ===== src/Handshake/Completion.antt =====
-- Ending a handshake and the rest of `Handshake`: `receive_handshake_response`,
-- `receive_pq_handshake_response`, `receive_cookie_reply`, construction and new keys, of
-- boringtun/src/noise/handshake.rs.
use pq_boringtun.Base.{
  ℕ, ◌-◌, ◌/◌, ◌%◌, ◌^◌, Bool, true, false, ◌==◌, not, if◌then◌else◌, Option, none, some, length,
}
use pq_boringtun.Base.Bytes.{Bytes, bytes_eq}
use pq_boringtun.Errors.{
  Result, ok, err, panics, ◌>>=◌, ◌>>◌, require, ok_or, unexpected_packet, wrong_packet_type,
}
use pq_boringtun.Errors.{wrong_index, invalid_packet, invalid_aead_tag, ml_kem_decapsulation_failed}
use pq_boringtun.Crypto.{Crypto}
use pq_boringtun.Session.{Session, new}
use pq_boringtun.Packet.{
  HandshakeResponse, PqHandshakeResponse, PacketCookieReply, mlkem768_ct_size,
}
use pq_boringtun.Handshake.{
  Handshake, NoiseParams, TimeStamper, tai64n_zero, HandshakeState, HandshakeInitSentState, attempt,
}
use pq_boringtun.Handshake.{idle, init_sent, init_received, expired}
use pq_boringtun.Handshake.Chain.{
  Chain, b2s_hash, aead_chacha20_open, mix_hash, mix_key, response_chain, mix_psk, derive_keys,
}
use pq_boringtun.Handshake.Chain.{label_mac1, label_cookie}

-- The handshake that a response belongs to, and whether it is the previous one.
abbrev pub matching : ℕ → HandshakeState → Option HandshakeInitSentState
matching receiver_idx (init_sent s) = if s.local_index == receiver_idx then some s else none
matching receiver_idx idle = none
matching receiver_idx (init_received s) = none
matching receiver_idx expired = none

unfoldable pub awaiting : Handshake → ℕ → Option (HandshakeInitSentState × Bool)
awaiting h receiver_idx = elim (matching receiver_idx h.state) [
  | some s ↦ some (s, false)
  | none ↦ elim (matching receiver_idx h.previous) [ some s ↦ some (s, true) | none ↦ none ]
]

-- The round trip time in milliseconds, and the slot of the handshake emptied.
unfoldable pub completed : Handshake → HandshakeInitSentState → Bool → ℕ → Handshake
completed h s is_previous now =
    let h' = record h { last_rtt = some ((now - s.time_sent) / 10 ^ 6 % 2 ^ 32) } in
    if is_previous then record h' { previous = idle } else record h' { state = idle }

module _ (c : Crypto) where
  -- The session keys of the initiator from the end of the chain: it receives under `temp3`.
  unfoldable pub open_response : Chain → Option Bytes → Bytes → ℕ → ℕ → Result Session
  open_response k preshared_key encrypted_nothing local_index peer_index =
      let mixed = mix_psk c k preshared_key in
      aead_chacha20_open c 0 mixed.1 0 encrypted_nothing mixed.0.hash >>= λ nothing.
      let keys = derive_keys c mixed.0 in ok (new local_index peer_index keys.1 keys.0)

  -- The chain of the initiator over a response's ephemeral key.
  unfoldable pub initiator_chain : NoiseParams → HandshakeInitSentState → Bytes → Chain
  initiator_chain params s ephemeral =
      response_chain c (record { chaining_key = s.chaining_key; hash = s.hash }) ephemeral
        (c.diffie_hellman s.ephemeral_private ephemeral)
        (c.diffie_hellman params.static_private ephemeral)

  unfoldable pub receive_handshake_response :
      Handshake → HandshakeResponse → ℕ → Handshake × Result Session
  receive_handshake_response h p now = elim (awaiting h p.receiver_idx) [
    | none ↦ (h, err unexpected_packet)
    | some (s, is_previous) ↦ elim (s.mlkem_decapsulation_key) [
      | some dk ↦ (h, err wrong_packet_type)
      | none ↦
          attempt h
            (open_response (initiator_chain h.params s p.unencrypted_ephemeral)
              h.params.preshared_key p.encrypted_nothing s.local_index p.sender_idx)
            λ session. (completed h s is_previous now, ok session)
    ]
  ]

  -- ML-KEM decapsulation, its secret mixed into the chaining key and the ciphertext into the hash.
  unfoldable pub mix_decapsulated : Chain → Option Bytes → Bytes → Result Chain
  mix_decapsulated k decapsulation_key ciphertext = ok_or decapsulation_key invalid_packet >>= λ dk.
      require (length ciphertext == mlkem768_ct_size) invalid_packet
      >> (ok_or (c.mlkem_decapsulate dk ciphertext) ml_kem_decapsulation_failed >>= λ ss.
          ok (mix_hash c (mix_key c k ss) ciphertext))

  unfoldable pub receive_pq_handshake_response :
      Handshake → PqHandshakeResponse → ℕ → Handshake × Result Session
  receive_pq_handshake_response h p now = elim (awaiting h p.receiver_idx) [
    | none ↦ (h, err unexpected_packet)
    | some (s, is_previous) ↦
        attempt h
          (mix_decapsulated (initiator_chain h.params s p.unencrypted_ephemeral)
              s.mlkem_decapsulation_key p.mlkem_ciphertext
            >>= λ k.
                open_response k h.params.preshared_key p.encrypted_nothing s.local_index
                  p.sender_idx)
          λ session. (completed h s is_previous now, ok session)
  ]

  -- The cookie, decrypted under a key of the peer and bound to the last MAC that was sent.
  unfoldable pub open_cookie : NoiseParams → PacketCookieReply → Bytes → Result Bytes
  open_cookie params p mac1 =
      ok_or
        (c.xaead.unseal (b2s_hash c label_cookie params.peer_static_public) p.nonce mac1
          p.encrypted_cookie)
        invalid_aead_tag
      >>= λ plaintext. require (length plaintext == 16) invalid_packet >> ok plaintext

  unfoldable pub receive_cookie_reply :
      Handshake → PacketCookieReply → Handshake × Result (Unit {0})
  receive_cookie_reply h p = elim (h.cookies.last_mac1) [
    | none ↦ (h, err unexpected_packet)
    | some mac1 ↦
        if not (p.receiver_idx == h.cookies.index)
        then (h, err wrong_index)
        else attempt h (open_cookie h.params p mac1) λ cookie.
          (record h { cookies = record (h.cookies) { write_cookie = some cookie } }, ok tt)
  ]

  -- `NoiseParams::new`
  unfoldable pub new_params : Bytes → Bytes → Bytes → Option Bytes → NoiseParams
  new_params static_private static_public peer_static_public preshared_key = record {
    static_public = static_public;
    static_private = static_private;
    peer_static_public = peer_static_public;
    static_shared = c.diffie_hellman static_private peer_static_public;
    sending_mac1_key = b2s_hash c label_mac1 peer_static_public;
    preshared_key = preshared_key;
  }

  -- `Handshake::new`, with the time stamper made from the clocks.
  unfoldable pub new_handshake : Bytes → Bytes → Bytes → ℕ → Option Bytes → TimeStamper → Handshake
  new_handshake static_private static_public peer_static_public global_idx preshared_key stamper =
      record {
        params = new_params static_private static_public peer_static_public preshared_key;
        next_index = global_idx;
        previous = idle;
        state = idle;
        cookies = record { last_mac1 = none; index = 0; write_cookie = none };
        last_handshake_timestamp = tai64n_zero;
        stamper = stamper;
        last_rtt = none;
      }

  -- `set_static_private`; the public key has to be that of the private key.
  unfoldable pub set_static_private : Handshake → Bytes → Bytes → Result Handshake
  set_static_private h private_key public_key =
      if bytes_eq (c.public_key private_key) public_key
      then ok (record h {
        params = record (h.params) {
          static_private = private_key;
          static_public = public_key;
          static_shared = c.diffie_hellman private_key h.params.peer_static_public;
        };
      })
      else panics
