-- ===== src/Handshake/Response.antt =====
-- Answering a handshake: `receive_handshake_initialization`, `format_handshake_response` and their
-- PQ counterparts, of boringtun/src/noise/handshake.rs.
use pq_boringtun.Base.{ℕ, ltb, ◌==◌, not, if◌then◌else◌, [], ◌++◌, none, some, length}
use pq_boringtun.Base.Bytes.{Bytes, to_le}
use pq_boringtun.Errors.{
  Result, ok, err, panics, ◌>>=◌, ◌>>◌, require, destination_buffer_too_small,
}
use pq_boringtun.Errors.{wrong_key, wrong_tai64n_timestamp, invalid_packet}
use pq_boringtun.Crypto.{Crypto}
use pq_boringtun.Session.{Session, new}
use pq_boringtun.Packet.{HandshakeInit, PqHandshakeInit, handshake_resp, handshake_resp_sz}
use pq_boringtun.Packet.{pq_handshake_resp, pq_handshake_resp_sz, mlkem768_pk_size}
use pq_boringtun.Handshake.{
  Handshake, NoiseParams, Tai64N, InitReceivedState, attempt, after, inc_index,
}
use pq_boringtun.Handshake.{idle, init_received, parse_tai64n}
use pq_boringtun.Handshake.Chain.{
  Chain, aead_chacha20_seal, aead_chacha20_open, mix_hash, mix_key, mix_key_and_derive,
}
use pq_boringtun.Handshake.Chain.{begin_chain, response_chain, mix_psk, derive_keys}
use pq_boringtun.Handshake.Initiation.{
  Surroundings, classical_start, pq_start, append_mac1_and_mac2,
}

-- The message and the new session.
pub record Answer : Type 0 where
  pub message : Bytes
  pub session : Session

module _ (c : Crypto) where
  -- The steps that the classical and the PQ responder share: the chain and the timestamp.
  unfoldable pub read_initiation :
      NoiseParams → Chain → Bytes → Bytes → Bytes → Result (Chain × Tai64N)
  read_initiation params start ephemeral encrypted_static encrypted_timestamp =
      let begun =
        begin_chain c start params.static_public ephemeral
          (c.diffie_hellman params.static_private ephemeral) in
      aead_chacha20_open c 32 begun.1 0 encrypted_static begun.0.hash >>= λ peer_static.
      require (c.verify_slices_are_equal params.peer_static_public peer_static) wrong_key
      >> (let stepped =
            mix_key_and_derive c (mix_hash c begun.0 encrypted_static) params.static_shared in
          aead_chacha20_open c 12 stepped.1 0 encrypted_timestamp stepped.0.hash >>= λ timestamp.
          ok (mix_hash c stepped.0 encrypted_timestamp, parse_tai64n timestamp))

  -- An accepted initiation: the timestamp is remembered, and the old state kept aside.
  unfoldable pub received_initiation : Handshake → Tai64N → InitReceivedState → Handshake
  received_initiation h timestamp s = record h {
    last_handshake_timestamp = timestamp;
    previous = h.state;
    state = init_received s;
  }

  unfoldable pub format_handshake_response : Handshake → Surroundings → Handshake × Result Answer
  format_handshake_response h env =
      if ltb env.dst_len handshake_resp_sz
      then (h, err destination_buffer_too_small)
      else elim (h.state) [
        | init_received s ↦
            let (h2, local_index) = inc_index (record h { state = idle }) in
            let ephemeral = c.public_key env.ephemeral_private in
            let k =
              response_chain c (record { chaining_key = s.chaining_key; hash = s.hash }) ephemeral
                (c.diffie_hellman env.ephemeral_private s.peer_ephemeral_public)
                (c.diffie_hellman env.ephemeral_private h.params.peer_static_public) in
            let mixed = mix_psk c k h.params.preshared_key in
            attempt h2 (aead_chacha20_seal c mixed.1 0 [] mixed.0.hash) λ encrypted_nothing.
              let (temp2, temp3) = derive_keys c mixed.0 in
              let (h3, message) = append_mac1_and_mac2 c h2 local_index (
                to_le 4 handshake_resp
                ++ (to_le 4 local_index
                    ++ (to_le 4 s.peer_index ++ (ephemeral ++ encrypted_nothing)))) in
              (
                h3,
                ok (record {
                  message = message;
                  session = new local_index s.peer_index temp2 temp3;
                }),
              )
        | _ ↦ (record h { state = idle }, panics)
      ]

  unfoldable pub receive_handshake_initialization :
      Handshake → HandshakeInit → Surroundings → Handshake × Result Answer
  receive_handshake_initialization h p env =
      attempt h
        (read_initiation h.params classical_start p.unencrypted_ephemeral p.encrypted_static
          p.encrypted_timestamp)
        λ r.
          if not (after r.1 h.last_handshake_timestamp)
          then (h, err wrong_tai64n_timestamp)
          else format_handshake_response
              (received_initiation h r.1 (record {
                hash = r.0.hash;
                chaining_key = r.0.chaining_key;
                peer_ephemeral_public = p.unencrypted_ephemeral;
                peer_index = p.sender_idx;
                mlkem_encapsulation_key = none;
              }))
              env

  -- The rest of the PQ response, once the encapsulation key has been checked.
  unfoldable pub finish_pq_response :
      Handshake → ℕ → InitReceivedState → Bytes → Surroundings → Handshake × Result Answer
  finish_pq_response h2 local_index s ek env =
      let ephemeral = c.public_key env.ephemeral_private in
      let k =
        response_chain c (record { chaining_key = s.chaining_key; hash = s.hash }) ephemeral
          (c.diffie_hellman env.ephemeral_private s.peer_ephemeral_public)
          (c.diffie_hellman env.ephemeral_private h2.params.peer_static_public) in
      let (ct, ss) = c.mlkem_encapsulate ek env.mlkem_random in
      let mixed = mix_psk c (mix_hash c (mix_key c k ss) ct) h2.params.preshared_key in
      attempt h2 (aead_chacha20_seal c mixed.1 0 [] mixed.0.hash) λ encrypted_nothing.
        let (temp2, temp3) = derive_keys c mixed.0 in
        let (h3, message) = append_mac1_and_mac2 c h2 local_index (
          to_le 4 pq_handshake_resp
          ++ (to_le 4 local_index
              ++ (to_le 4 s.peer_index ++ (ephemeral ++ (encrypted_nothing ++ ct))))) in
        (h3, ok (record { message = message; session = new local_index s.peer_index temp2 temp3 }))

  unfoldable pub format_pq_handshake_response : Handshake → Surroundings → Handshake × Result Answer
  format_pq_handshake_response h env =
      if ltb env.dst_len pq_handshake_resp_sz
      then (h, err destination_buffer_too_small)
      else elim (h.state) [
        | init_received s ↦ elim (s.mlkem_encapsulation_key) [
          | none ↦ (record h { state = idle }, panics)
          | some ek ↦
              let (h2, local_index) = inc_index (record h { state = idle }) in
              if not (length ek == mlkem768_pk_size)
              then (h2, panics)
              else if not (c.mlkem_key_is_valid ek)
              then (h2, err invalid_packet)
              else finish_pq_response h2 local_index s ek env
        ]
        | _ ↦ (record h { state = idle }, panics)
      ]

  unfoldable pub receive_pq_handshake_initialization :
      Handshake → PqHandshakeInit → Surroundings → Handshake × Result Answer
  receive_pq_handshake_initialization h p env =
      attempt h
        (read_initiation h.params pq_start p.unencrypted_ephemeral p.encrypted_static
          p.encrypted_timestamp)
        λ r.
          if not (after r.1 h.last_handshake_timestamp)
          then (h, err wrong_tai64n_timestamp)
          else let k = mix_hash c r.0 p.mlkem_ephemeral_public in
            format_pq_handshake_response
              (received_initiation h r.1 (record {
                hash = k.hash;
                chaining_key = k.chaining_key;
                peer_ephemeral_public = p.unencrypted_ephemeral;
                peer_index = p.sender_idx;
                mlkem_encapsulation_key = some p.mlkem_ephemeral_public;
              }))
              env
