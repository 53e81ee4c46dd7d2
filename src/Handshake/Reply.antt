-- ===== src/Handshake/Reply.antt =====
-- A response that one party writes ends the handshake of the other.
use pq_boringtun.Base.{ℕ, ◌≤◌, ◌≡◌, refl, ◌∙◌, arith, ◌++◌, [], length, Option, le→ltb}
use pq_boringtun.Base.Bytes.{Bytes, to_le}
use pq_boringtun.Errors.{ok}
use pq_boringtun.Crypto.{Crypto, CryptoLaws}
use pq_boringtun.Session.{new}
use pq_boringtun.Packet.{HandshakeResponse, response, handshake_resp_sz}
use pq_boringtun.Packet.Format.{format}
use pq_boringtun.Handshake.{
  Handshake, idle, init_received, InitReceivedState, HandshakeInitSentState, inc_index, step_index,
}
use pq_boringtun.Handshake.Chain.{Chain, mix_psk, derive_keys, response_chain}
use pq_boringtun.Handshake.Initiation.{Surroundings, append_mac1_and_mac2}
use pq_boringtun.Handshake.Response.{Answer, format_handshake_response}
use pq_boringtun.Handshake.Completion.{open_response, initiator_chain, new_params}
use pq_boringtun.Handshake.Seal.{params_of, SealOf, seal-SealOf}
use pq_boringtun.Handshake.Macs.{append_macs, response_layout}

module _ (c : Crypto) (limit : ℕ) (laws : CryptoLaws c limit) where
  -- The initiator opens what was sealed at the end of the chain, and has the two keys.
  pub open_response_lem :
      (k : Chain) (psk : Option Bytes) (en : Bytes) (i j : ℕ)
      → SealOf c (mix_psk c k psk).1 0 [] (mix_psk c k psk).0.hash en
      → open_response c k psk en i j
        ≡ ok (new i j (derive_keys c (mix_psk c k psk).0).1 (derive_keys c (mix_psk c k psk).0).0)
  unfolding open_response
  open_response_lem k psk en i j s = rw (s.opens 0 refl)

  -- Both sides reach the same chain: the responder from its new ephemeral secret and the public
  -- keys of the initiator, the initiator from its own secrets and that ephemeral's public key.
  pub initiator_chain_lem :
      (own peer : Bytes) (psk : Option Bytes) (s : HandshakeInitSentState) (ephemeral : Bytes)
      → initiator_chain c (params_of c peer own psk) s (c.public_key ephemeral)
        ≡ response_chain c
            (record { chaining_key = s.chaining_key; hash = s.hash })
            (c.public_key ephemeral)
            (c.diffie_hellman ephemeral (c.public_key s.ephemeral_private))
            (c.diffie_hellman ephemeral (c.public_key peer))
  unfolding initiator_chain new_params
  initiator_chain_lem own peer psk s ephemeral =
      rw (laws.dh_comm s.ephemeral_private ephemeral, laws.dh_comm peer ephemeral)

-- The responder with secret `own` answers in state `s`, the initiator with secret `peer` waits in
-- state `sent`.
pub record ReplyOf (c : Crypto) (own peer : Bytes) (psk : Option Bytes) (h : Handshake)
    (s : InitReceivedState) (sent : HandshakeInitSentState) (env : Surroundings) : Type 0 where
  pub after : Handshake
  pub answer : Answer
  pub packet : HandshakeResponse
  pub rest : Bytes
  pub own_key : Bytes
  pub peer_key : Bytes
  pub returns : format_handshake_response c h env ≡ (after, ok answer)
  pub message : answer.message ≡ format (response packet) rest
  pub rest_size : length rest ≡ 32
  pub sender : packet.sender_idx ≡ step_index h.next_index
  pub receiver : packet.receiver_idx ≡ s.peer_index
  pub ephemeral_size : length packet.unencrypted_ephemeral ≡ 32
  pub nothing_size : length packet.encrypted_nothing ≡ 16
  pub session : answer.session ≡ new (step_index h.next_index) s.peer_index own_key peer_key
  pub opens :
      open_response c
        (initiator_chain c (params_of c peer own psk) sent packet.unencrypted_ephemeral)
        psk
        packet.encrypted_nothing
        sent.local_index
        packet.sender_idx
      ≡ ok (new sent.local_index packet.sender_idx peer_key own_key)

module _ (c : Crypto) (limit : ℕ) (laws : CryptoLaws c limit) where
  pub response-ReplyOf :
      (own peer : Bytes) (psk : Option Bytes) (h : Handshake) (s : InitReceivedState)
      (sent : HandshakeInitSentState) (env : Surroundings)
      → h.params ≡ params_of c own peer psk
      → h.state ≡ init_received s
      → sent.hash ≡ s.hash
      → sent.chaining_key ≡ s.chaining_key
      → c.public_key sent.ephemeral_private ≡ s.peer_ephemeral_public
      → handshake_resp_sz ≤ env.dst_len
      → ReplyOf c own peer psk h s sent env
  unfolding format_handshake_response inc_index new_params append_mac1_and_mac2
  response-ReplyOf own peer psk h s sent env params state hash key ephemeral fits =
      let eph = c.public_key env.ephemeral_private in
      let k =
        response_chain c (record { chaining_key = s.chaining_key; hash = s.hash }) eph
          (c.diffie_hellman env.ephemeral_private s.peer_ephemeral_public)
          (c.diffie_hellman env.ephemeral_private (c.public_key peer)) in
      let mixed = mix_psk c k psk in
      let (en, sealed) = seal-SealOf c limit laws mixed.1 0 [] mixed.0.hash (omega arith) in
      let keys = derive_keys c mixed.0 in
      let p : HandshakeResponse = record {
        sender_idx = step_index h.next_index;
        receiver_idx = s.peer_index;
        unencrypted_ephemeral = eph;
        encrypted_nothing = en;
      } in
      let body = to_le 4 2 ++ (to_le 4 p.sender_idx ++ (to_le 4 p.receiver_idx ++ (eph ++ en))) in
      let h2 : Handshake = record h { state = idle; next_index = step_index h.next_index } in
      let (rest, e, n) = append_macs c limit laws h2 p.sender_idx body in
      record {
        after = (append_mac1_and_mac2 c h2 p.sender_idx body).0;
        answer = record {
          message = (append_mac1_and_mac2 c h2 p.sender_idx body).1;
          session = new p.sender_idx s.peer_index keys.0 keys.1;
        };
        packet = p;
        rest = rest;
        own_key = keys.0;
        peer_key = keys.1;
        returns = rw (le→ltb env.dst_len 92 fits, state, params, sealed.seals);
        message = e ∙ response_layout rest p;
        rest_size = n;
        sender = refl;
        receiver = refl;
        ephemeral_size = laws.public_key_size env.ephemeral_private;
        nothing_size = sealed.size;
        session = refl;
        opens =
            rw
              (
                initiator_chain_lem c limit laws own peer psk sent env.ephemeral_private,
                hash,
                key,
                ephemeral,
              )
              (open_response_lem c limit laws k psk en sent.local_index p.sender_idx sealed);
      }
