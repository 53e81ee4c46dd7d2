-- ===== src/Handshake/Agreement.antt =====
-- A whole handshake: initiation, response and completion, over the wire.
use pq_boringtun.Base.{
  ℕ, ◌^◌, ◌≤◌, ◌<◌, ◌≡◌, refl, ap, ◌∙◌, arith, length, Option, none, true, false,
}
use pq_boringtun.Base.{length-append}
use pq_boringtun.Base.Bytes.{Bytes, length-to_be}
use pq_boringtun.Errors.{ok}
use pq_boringtun.Crypto.{Crypto, CryptoLaws}
use pq_boringtun.Session.{Session, new}
use pq_boringtun.Packet.{parse_incoming_packet, HandshakeInit, init, HandshakeResponse, response}
use pq_boringtun.Packet.{handshake_init_sz, handshake_resp_sz}
use pq_boringtun.Packet.Complete.{parse-format}
use pq_boringtun.Handshake.{Handshake, step_index}
use pq_boringtun.Handshake.{TimeStamper, parse_tai64n, after, stamp}
use pq_boringtun.Handshake.Initiation.{
  Surroundings, classical_start, sent_initiation, append_mac1_and_mac2,
}
use pq_boringtun.Handshake.Initiation.{format_handshake_initiation}
use pq_boringtun.Handshake.Response.{Answer, received_initiation, receive_handshake_initialization}
use pq_boringtun.Handshake.Completion.{new_params, completed, receive_handshake_response}
use pq_boringtun.Handshake.Index.{step_index-lt}
use pq_boringtun.Handshake.Anonymous.{parse_handshake_anon}
use pq_boringtun.Handshake.Seal.{params_of}
use pq_boringtun.Handshake.Steps.{
  init_packet, init_body, init_sending, init_sent_state, answering, sends, answers, completes,
}
use pq_boringtun.Handshake.Macs.{append_macs, init_layout}
use pq_boringtun.Handshake.Opening.{write-OpeningOf}
use pq_boringtun.Handshake.Reply.{response-ReplyOf}

-- Two new sessions, each the other's counterpart: the indices and the keys are crosswise the same.
pub record Linked (s t : Session) : Type 0 where
  pub here : ℕ
  pub there : ℕ
  pub inbound : Bytes
  pub outbound : Bytes
  pub here_small : here < 2 ^ 32
  pub there_small : there < 2 ^ 32
  pub left : s ≡ new here there inbound outbound
  pub right : t ≡ new there here outbound inbound

pub length-stamp : (t : TimeStamper) (now : ℕ) → length (stamp t now) ≡ 12
unfolding stamp
length-stamp t now = omega (arith, length-append {0}, length-to_be)

-- The three steps of a handshake, with the datagrams that pass between them.
pub record Handshaken (c : Crypto) (alice bob : Handshake) (alice_env bob_env : Surroundings)
    (now : ℕ) : Type 0 where
  pub alice_sent : Handshake
  pub first : Bytes
  pub initiation : HandshakeInit
  pub bob_done : Handshake
  pub answer : Answer
  pub reply : HandshakeResponse
  pub alice_done : Handshake
  pub session : Session
  pub sends : format_handshake_initiation c alice alice_env ≡ (alice_sent, ok first)
  pub arrives : parse_incoming_packet first ≡ ok (init initiation)
  pub names :
      parse_handshake_anon c bob.params.static_private bob.params.static_public initiation
      ≡ ok (record {
        peer_index = session.receiving_index;
        peer_static_public = alice.params.static_public;
      })
  pub answers : receive_handshake_initialization c bob initiation bob_env ≡ (bob_done, ok answer)
  pub returns : parse_incoming_packet answer.message ≡ ok (response reply)
  pub completes : receive_handshake_response c alice_sent reply now ≡ (alice_done, ok session)
  pub linked : Linked session answer.session

module _ (c : Crypto) (limit : ℕ) (laws : CryptoLaws c limit) where
  -- Two parties that know each other's public keys and share the preshared key, in whatever states
  -- their handshakes are, with room for the messages: when the initiator's clock is past the last
  -- timestamp that the responder accepted, the initiation, the response and its completion all
  -- succeed over the wire, the responder reads the initiator's index and static key from the
  -- initiation alone, and the two are left with new sessions that are each other's counterparts.
  pub handshake_agreement :
      (alice_secret bob_secret : Bytes) (psk : Option Bytes) (alice bob : Handshake)
      (alice_env bob_env : Surroundings) (now : ℕ)
      → alice.params ≡ params_of c alice_secret bob_secret psk
      → bob.params ≡ params_of c bob_secret alice_secret psk
      → alice.next_index < 2 ^ 32
      → bob.next_index < 2 ^ 32
      → handshake_init_sz ≤ alice_env.dst_len
      → handshake_resp_sz ≤ bob_env.dst_len
      → after (parse_tai64n (stamp alice.stamper alice_env.now)) bob.last_handshake_timestamp ≡ true
      → Handshaken c alice bob alice_env bob_env now
  unfolding new parse_handshake_anon sent_initiation received_initiation append_mac1_and_mac2
      new_params
  handshake_agreement sa sb psk alice bob ea eb now pa pb ia ib fa fb later =
      let ts = stamp alice.stamper ea.now in
      let (w, o) =
        write-OpeningOf c limit laws sa sb psk classical_start ea.ephemeral_private ts
          (length-stamp alice.stamper ea.now) in
      let i = step_index alice.next_index in
      let p = init_packet c i ea.ephemeral_private w in
      let sent = init_sent_state i ea w.chain none in
      let s = answering w.chain p.unencrypted_ephemeral i none in
      let r =
        response-ReplyOf c limit laws sb sa psk (received_initiation c bob (parse_tai64n ts) s) s
          sent eb pb refl refl refl refl fb in
      let (rest, e, n) =
        append_macs c limit laws
          (sent_initiation c (record alice { next_index = i }) i ea w.chain none) i
          (init_body c i ea.ephemeral_private w) in
      let h = (init_sending c alice ea w).0 in
      record {
        alice_sent = h;
        first = (init_sending c alice ea w).1;
        initiation = p;
        bob_done = r.after;
        answer = r.answer;
        reply = r.packet;
        alice_done = completed h sent false now;
        session = new i r.packet.sender_idx r.peer_key r.own_key;
        sends = sends c alice ea w fa (rw pa o.writes);
        arrives =
            ap parse_incoming_packet (e ∙ init_layout rest p)
            ∙ parse-format (init p) rest
                (
                  step_index-lt alice.next_index ia,
                  laws.public_key_size ea.ephemeral_private,
                  o.static_size,
                  o.timestamp_size,
                )
                n;
        names = rw (pa, pb, o.names i);
        answers = answers c bob p eb w.chain (parse_tai64n ts) (rw pb o.reads) later ∙ r.returns;
        returns =
            ap parse_incoming_packet r.message
            ∙ parse-format (response r.packet) r.rest
                (
                  rw r.sender (step_index-lt bob.next_index ib),
                  rw r.receiver (step_index-lt alice.next_index ia),
                  r.ephemeral_size,
                  r.nothing_size,
                )
                r.rest_size;
        completes = completes c h sent r.packet now _ refl r.receiver refl (rw pa r.opens);
        linked = record {
          here = i;
          there = r.packet.sender_idx;
          inbound = r.peer_key;
          outbound = r.own_key;
          here_small = step_index-lt alice.next_index ia;
          there_small = rw r.sender (step_index-lt bob.next_index ib);
          left = refl;
          right = rw r.sender r.session;
        };
      }
