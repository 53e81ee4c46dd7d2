-- ===== src/Handshake/PqReply.antt =====
-- A PQ response that one party writes ends the handshake of the other.
use pq_boringtun.Base.{ℕ, ◌≤◌, ◌≡◌, refl, ◌∙◌, arith, ◌++◌, [], length, Option, some, le→ltb}
use pq_boringtun.Base.Bytes.{Bytes, to_le}
use pq_boringtun.Errors.{ok}
use pq_boringtun.Crypto.{Crypto, CryptoLaws}
use pq_boringtun.Session.{new}
use pq_boringtun.Packet.{PqHandshakeResponse, pq_response, pq_handshake_resp_sz}
use pq_boringtun.Packet.Format.{format}
use pq_boringtun.Handshake.{
  Handshake, idle, init_received, InitReceivedState, HandshakeInitSentState, inc_index, step_index,
}
use pq_boringtun.Handshake.Chain.{Chain, mix_hash, mix_key, mix_psk, derive_keys, response_chain}
use pq_boringtun.Handshake.Initiation.{Surroundings, append_mac1_and_mac2}
use pq_boringtun.Handshake.Response.{Answer, finish_pq_response, format_pq_handshake_response}
use pq_boringtun.Handshake.Completion.{open_response, initiator_chain, mix_decapsulated, new_params}
use pq_boringtun.Handshake.Seal.{params_of, seal-SealOf}
use pq_boringtun.Handshake.Macs.{append_macs, pq_response_layout}
use pq_boringtun.Handshake.Reply.{open_response_lem, initiator_chain_lem}

-- The responder with secret `own` answers in state `s`, the initiator with secret `peer` waits in
-- state `sent`.
pub record PqReplyOf (c : Crypto) (own peer : Bytes) (psk : Option Bytes) (h : Handshake)
    (s : InitReceivedState) (sent : HandshakeInitSentState) (env : Surroundings) : Type 0 where
  pub after : Handshake
  pub answer : Answer
  pub packet : PqHandshakeResponse
  pub rest : Bytes
  pub own_key : Bytes
  pub peer_key : Bytes
  pub chain : Chain
  pub returns : format_pq_handshake_response c h env ≡ (after, ok answer)
  pub message : answer.message ≡ format (pq_response packet) rest
  pub rest_size : length rest ≡ 32
  pub sender : packet.sender_idx ≡ step_index h.next_index
  pub receiver : packet.receiver_idx ≡ s.peer_index
  pub ephemeral_size : length packet.unencrypted_ephemeral ≡ 32
  pub nothing_size : length packet.encrypted_nothing ≡ 16
  pub ciphertext_size : length packet.mlkem_ciphertext ≡ 1088
  pub session : answer.session ≡ new (step_index h.next_index) s.peer_index own_key peer_key
  pub mixes :
      mix_decapsulated c
        (initiator_chain c (params_of c peer own psk) sent packet.unencrypted_ephemeral)
        sent.mlkem_decapsulation_key
        packet.mlkem_ciphertext
      ≡ ok chain
  pub opens :
      open_response c chain psk packet.encrypted_nothing sent.local_index packet.sender_idx
      ≡ ok (new sent.local_index packet.sender_idx peer_key own_key)

module _ (c : Crypto) (limit : ℕ) (laws : CryptoLaws c limit) where
  mixes_lem :
      (own peer : Bytes) (psk : Option Bytes) (s : InitReceivedState)
      (sent : HandshakeInitSentState) (ephemeral r t : Bytes)
      → sent.hash ≡ s.hash
      → sent.chaining_key ≡ s.chaining_key
      → c.public_key sent.ephemeral_private ≡ s.peer_ephemeral_public
      → sent.mlkem_decapsulation_key ≡ some (c.mlkem_generate r).0
      → mix_decapsulated c
          (initiator_chain c (params_of c peer own psk) sent (c.public_key ephemeral))
          sent.mlkem_decapsulation_key
          (c.mlkem_encapsulate (c.mlkem_generate r).1 t).0
        ≡ ok (
            mix_hash c
              (mix_key c
                (response_chain c
                  (record { chaining_key = s.chaining_key; hash = s.hash })
                  (c.public_key ephemeral)
                  (c.diffie_hellman ephemeral s.peer_ephemeral_public)
                  (c.diffie_hellman ephemeral (c.public_key peer)))
                (c.mlkem_encapsulate (c.mlkem_generate r).1 t).1)
              (c.mlkem_encapsulate (c.mlkem_generate r).1 t).0)
  unfolding mix_decapsulated
  mixes_lem own peer psk s sent ephemeral r t hash key eph dk = rw (
    initiator_chain_lem c limit laws own peer psk sent ephemeral,
    hash,
    key,
    eph,
    dk,
    laws.mlkem_ciphertext_size (c.mlkem_generate r).1 t,
    laws.mlkem_correct r t,
  )

  pub pq_response-PqReplyOf :
      (own peer : Bytes) (psk : Option Bytes) (h : Handshake) (s : InitReceivedState)
      (sent : HandshakeInitSentState) (env : Surroundings) (r : Bytes)
      → h.params ≡ params_of c own peer psk
      → h.state ≡ init_received s
      → sent.hash ≡ s.hash
      → sent.chaining_key ≡ s.chaining_key
      → c.public_key sent.ephemeral_private ≡ s.peer_ephemeral_public
      → sent.mlkem_decapsulation_key ≡ some (c.mlkem_generate r).0
      → s.mlkem_encapsulation_key ≡ some (c.mlkem_generate r).1
      → pq_handshake_resp_sz ≤ env.dst_len
      → PqReplyOf c own peer psk h s sent env
  unfolding format_pq_handshake_response finish_pq_response inc_index new_params
      append_mac1_and_mac2
  pq_response-PqReplyOf own peer psk h s sent env r params state hash key ephemeral dk ek fits =
      let eph = c.public_key env.ephemeral_private in
      let (ct, ss) = c.mlkem_encapsulate (c.mlkem_generate r).1 env.mlkem_random in
      let k =
        response_chain c (record { chaining_key = s.chaining_key; hash = s.hash }) eph
          (c.diffie_hellman env.ephemeral_private s.peer_ephemeral_public)
          (c.diffie_hellman env.ephemeral_private (c.public_key peer)) in
      let k' = mix_hash c (mix_key c k ss) ct in
      let mixed = mix_psk c k' psk in
      let (en, sealed) = seal-SealOf c limit laws mixed.1 0 [] mixed.0.hash (omega arith) in
      let keys = derive_keys c mixed.0 in
      let p : PqHandshakeResponse = record {
        sender_idx = step_index h.next_index;
        receiver_idx = s.peer_index;
        unencrypted_ephemeral = eph;
        encrypted_nothing = en;
        mlkem_ciphertext = ct;
      } in
      let body =
        to_le 4 6 ++ (to_le 4 p.sender_idx ++ (to_le 4 p.receiver_idx ++ (eph ++ (en ++ ct)))) in
      let h2 : Handshake = record h { state = idle; next_index = step_index h.next_index } in
      let (rest, e, n) = append_macs c limit laws h2 p.sender_idx body in
      record {
        after = (append_mac1_and_mac2 c h2 p.sender_idx body).0;
        answer = record {
          message = (append_mac1_and_mac2 c h2 p.sender_idx body).1;
          session = new p.sender_idx s.peer_index keys.0 keys.1;
        };
        packet = p;
        rest = rest;
        own_key = keys.0;
        peer_key = keys.1;
        chain = k';
        returns = rw (
          le→ltb env.dst_len 1180 fits,
          state,
          ek,
          laws.mlkem_key_size r,
          laws.mlkem_valid r,
          params,
          sealed.seals,
        );
        message = e ∙ pq_response_layout rest p;
        rest_size = n;
        sender = refl;
        receiver = refl;
        ephemeral_size = laws.public_key_size env.ephemeral_private;
        nothing_size = sealed.size;
        ciphertext_size = laws.mlkem_ciphertext_size (c.mlkem_generate r).1 env.mlkem_random;
        session = refl;
        mixes =
            mixes_lem own peer psk s sent env.ephemeral_private r env.mlkem_random hash key
              ephemeral dk;
        opens = open_response_lem c limit laws k' psk en sent.local_index p.sender_idx sealed;
      }
