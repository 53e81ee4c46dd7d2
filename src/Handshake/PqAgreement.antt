-- ===== src/Handshake/PqAgreement.antt =====
-- A whole PQ handshake: initiation, response and completion, over the wire.
use pq_boringtun.Base.{ℕ, ◌^◌, ◌≤◌, ◌<◌, ◌≡◌, refl, ap, ◌∙◌, Option, some, true, false}
use pq_boringtun.Base.Bytes.{Bytes}
use pq_boringtun.Errors.{ok}
use pq_boringtun.Crypto.{Crypto, CryptoLaws}
use pq_boringtun.Session.{Session, new}
use pq_boringtun.Packet.{
  parse_incoming_packet, PqHandshakeInit, pq_init, PqHandshakeResponse, pq_response,
}
use pq_boringtun.Packet.{pq_handshake_init_sz, pq_handshake_resp_sz}
use pq_boringtun.Packet.Complete.{parse-format}
use pq_boringtun.Handshake.{Handshake, step_index}
use pq_boringtun.Handshake.{parse_tai64n, after, stamp}
use pq_boringtun.Handshake.Initiation.{
  Surroundings, pq_start, sent_initiation, append_mac1_and_mac2,
}
use pq_boringtun.Handshake.Initiation.{format_pq_handshake_initiation}
use pq_boringtun.Handshake.Response.{
  Answer, received_initiation, receive_pq_handshake_initialization,
}
use pq_boringtun.Handshake.Completion.{new_params, completed, receive_pq_handshake_response}
use pq_boringtun.Handshake.Index.{step_index-lt}
use pq_boringtun.Handshake.Chain.{mix_hash}
use pq_boringtun.Handshake.Agreement.{Linked, length-stamp}
use pq_boringtun.Handshake.Anonymous.{parse_pq_handshake_anon}
use pq_boringtun.Handshake.Seal.{params_of}
use pq_boringtun.Handshake.Steps.{
  pq_init_packet, pq_init_body, pq_init_sending, init_sent_state, answering, pq_sends, pq_answers,
  pq_completes,
}
use pq_boringtun.Handshake.Macs.{append_macs, pq_init_layout}
use pq_boringtun.Handshake.Opening.{write-OpeningOf}
use pq_boringtun.Handshake.PqReply.{pq_response-PqReplyOf}

-- The three steps of a handshake, with the datagrams that pass between them.
pub record PqHandshaken (c : Crypto) (alice bob : Handshake) (alice_env bob_env : Surroundings)
    (now : ℕ) : Type 0 where
  pub alice_sent : Handshake
  pub first : Bytes
  pub initiation : PqHandshakeInit
  pub bob_done : Handshake
  pub answer : Answer
  pub reply : PqHandshakeResponse
  pub alice_done : Handshake
  pub session : Session
  pub sends : format_pq_handshake_initiation c alice alice_env ≡ (alice_sent, ok first)
  pub arrives : parse_incoming_packet first ≡ ok (pq_init initiation)
  pub names :
      parse_pq_handshake_anon c bob.params.static_private bob.params.static_public initiation
      ≡ ok (record {
        peer_index = session.receiving_index;
        peer_static_public = alice.params.static_public;
      })
  pub answers : receive_pq_handshake_initialization c bob initiation bob_env ≡ (bob_done, ok answer)
  pub returns : parse_incoming_packet answer.message ≡ ok (pq_response reply)
  pub completes : receive_pq_handshake_response c alice_sent reply now ≡ (alice_done, ok session)
  pub linked : Linked session answer.session

module _ (c : Crypto) (limit : ℕ) (laws : CryptoLaws c limit) where
  -- Two parties that know each other's public keys and share the preshared key, in whatever states
  -- their handshakes are, with room for the messages: when the initiator's clock is past the last
  -- timestamp that the responder accepted, the initiation, the response and its completion all
  -- succeed over the wire, the responder reads the initiator's index and static key from the
  -- initiation alone, and the two are left with new sessions that are each other's counterparts.
  pub pq_handshake_agreement :
      (alice_secret bob_secret : Bytes) (psk : Option Bytes) (alice bob : Handshake)
      (alice_env bob_env : Surroundings) (now : ℕ)
      → alice.params ≡ params_of c alice_secret bob_secret psk
      → bob.params ≡ params_of c bob_secret alice_secret psk
      → alice.next_index < 2 ^ 32
      → bob.next_index < 2 ^ 32
      → pq_handshake_init_sz ≤ alice_env.dst_len
      → pq_handshake_resp_sz ≤ bob_env.dst_len
      → after (parse_tai64n (stamp alice.stamper alice_env.now)) bob.last_handshake_timestamp ≡ true
      → PqHandshaken c alice bob alice_env bob_env now
  unfolding new parse_pq_handshake_anon sent_initiation received_initiation append_mac1_and_mac2
      new_params
  pq_handshake_agreement sa sb psk alice bob ea eb now pa pb ia ib fa fb later =
      let ts = stamp alice.stamper ea.now in
      let (w, o) =
        write-OpeningOf c limit laws sa sb psk pq_start ea.ephemeral_private ts
          (length-stamp alice.stamper ea.now) in
      let i = step_index alice.next_index in
      let keys = c.mlkem_generate ea.mlkem_random in
      let k = mix_hash c w.chain keys.1 in
      let p = pq_init_packet c i ea.ephemeral_private w keys.1 in
      let sent = init_sent_state i ea k (some keys.0) in
      let s = answering k p.unencrypted_ephemeral i (some keys.1) in
      let r =
        pq_response-PqReplyOf c limit laws sb sa psk (received_initiation c bob (parse_tai64n ts) s)
          s sent eb ea.mlkem_random pb refl refl refl refl refl refl fb in
      let (rest, e, n) =
        append_macs c limit laws
          (sent_initiation c (record alice { next_index = i }) i ea k (some keys.0)) i
          (pq_init_body c i ea.ephemeral_private w keys.1) in
      let h = (pq_init_sending c alice ea w).0 in
      record {
        alice_sent = h;
        first = (pq_init_sending c alice ea w).1;
        initiation = p;
        bob_done = r.after;
        answer = r.answer;
        reply = r.packet;
        alice_done = completed h sent false now;
        session = new i r.packet.sender_idx r.peer_key r.own_key;
        sends = pq_sends c alice ea w fa (rw pa o.writes);
        arrives =
            ap parse_incoming_packet (e ∙ pq_init_layout rest p)
            ∙ parse-format (pq_init p) rest
                (
                  step_index-lt alice.next_index ia,
                  laws.public_key_size ea.ephemeral_private,
                  o.static_size,
                  o.timestamp_size,
                  laws.mlkem_key_size ea.mlkem_random,
                )
                n;
        names = rw (pa, pb, o.names i);
        answers = pq_answers c bob p eb w.chain (parse_tai64n ts) (rw pb o.reads) later ∙ r.returns;
        returns =
            ap parse_incoming_packet r.message
            ∙ parse-format (pq_response r.packet) r.rest
                (
                  rw r.sender (step_index-lt bob.next_index ib),
                  rw r.receiver (step_index-lt alice.next_index ia),
                  r.ephemeral_size,
                  r.nothing_size,
                  r.ciphertext_size,
                )
                r.rest_size;
        completes =
            pq_completes c h sent r.packet now r.chain _ refl r.receiver (rw pa r.mixes)
              (rw pa r.opens);
        linked = record {
          here = i;
          there = r.packet.sender_idx;
          inbound = r.peer_key;
          outbound = r.own_key;
          here_small = step_index-lt alice.next_index ia;
          there_small = rw r.sender (step_index-lt bob.next_index ib);
          left = refl;
          right = rw r.sender r.session;
        };
      }
