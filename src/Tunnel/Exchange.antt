-- ===== src/Tunnel/Exchange.antt =====
-- A PQ handshake between two tunnels, and the packet that waited for it.
use mathlib.Core.Path.{subst}
use pq_boringtun.Base.{
  ℕ, ◌+◌, ◌%◌, ◌≤◌, ◌≡◌, ◌⊎◌, refl, sym, ap, ◌∙◌, arith, true, [], ◌∷◌, ◌++◌, length, Option, some,
}
use pq_boringtun.Base.Bytes.{Bytes}
use pq_boringtun.Errors.{ok, IfOk}
use pq_boringtun.Crypto.{Crypto, CryptoLaws}
use pq_boringtun.Session.{Sent, format_packet_data}
use pq_boringtun.Session.Send.{format_packet_data_lem}
use pq_boringtun.Packet.{
  cookie_reply_sz, pq_init, pq_response, pq_handshake_init_sz, pq_handshake_resp_sz,
}
use pq_boringtun.Handshake.{parse_tai64n, after, stamp}
use pq_boringtun.Handshake.Completion.{new_params}
use pq_boringtun.Handshake.Mac1.{HasMac1, HasMac1-bytes, pq_initiation-HasMac1, pq_answer-HasMac1}
use pq_boringtun.Handshake.PqAgreement.{PqHandshaken, pq_handshake_agreement}
use pq_boringtun.RateLimiter.{IpAddr, is_under_load, sender_of}
use pq_boringtun.RateLimiter.Calm.{calm_passes}
use pq_boringtun.Tunnel.{
  Tunn, TunnResult, write_to_network, Moment, surroundings, store, n_sessions,
}
use pq_boringtun.Tunnel.Encapsulate.{encapsulate}
use pq_boringtun.Tunnel.Decapsulate.{decapsulate, handle_verified_packet}
use pq_boringtun.Tunnel.Opened.{
  Starts, Confirms, encapsulate-Starts, initiation-Answered, response-Confirmed, passed,
}
use pq_boringtun.Tunnel.Carries.{IsIpv4, IsIpv6}
use pq_boringtun.Tunnel.Meeting.{
  IsPeer, IsIdle, Meeting, Exchange, stored_there, joins, meeting-Exchange,
}

module _ (c : Crypto) (limit : ℕ) (laws : CryptoLaws c limit) (alice_secret bob_secret : Bytes)
    (psk : Option Bytes) (a b : Tunn) (packet : Bytes) (ma mb mc : Moment)
    (from_alice from_bob : Option IpAddr) (pa : IsPeer c alice_secret bob_secret psk a)
    (pb : IsPeer c bob_secret alice_secret psk b) (ia : IsIdle a)
    (room_a : pq_handshake_init_sz ≤ length ma.dst) (room_b : pq_handshake_resp_sz ≤ length mb.dst)
    (room_c : 32 ≤ length mc.dst)
    (later : after
        (parse_tai64n (stamp a.handshake.stamper ma.later))
        b.handshake.last_handshake_timestamp
      ≡ true) where
  abbrev Meets : Type 0
  Meets = PqHandshaken c a.handshake b.handshake (surroundings ma) (surroundings mb) mc.later

  handshaken : Meets
  handshaken =
      pq_handshake_agreement c limit laws alice_secret bob_secret psk a.handshake b.handshake
        (surroundings ma) (surroundings mb) mc.later pa.params pb.params pa.index pb.index room_a
        room_b later

  -- The keys of the MACs are those that the limiters check.
  initiation-HasMac1 : (k : Meets) → HasMac1 c b.rate_limiter.mac1_key k.first
  unfolding new_params
  initiation-HasMac1 k =
      let key : a.handshake.params.sending_mac1_key ≡ b.rate_limiter.mac1_key =
        ap (λ q. q.sending_mac1_key) pa.params ∙ sym pb.limiter in
      subst (λ q. HasMac1 c q k.first) key
        (subst (λ o. IfOk (HasMac1 c a.handshake.params.sending_mac1_key) o.1) k.sends
          (pq_initiation-HasMac1 c limit laws a.handshake (surroundings ma)))

  response-HasMac1 : (k : Meets) → HasMac1 c a.rate_limiter.mac1_key k.answer.message
  unfolding new_params
  response-HasMac1 k =
      let key : b.handshake.params.sending_mac1_key ≡ a.rate_limiter.mac1_key =
        ap (λ q. q.sending_mac1_key) pb.params ∙ sym pa.limiter in
      subst (λ q. HasMac1 c q k.answer.message) key
        (subst
          (λ o. IfOk (λ answer. HasMac1 c b.handshake.params.sending_mac1_key answer.message) o.1)
          k.answers (pq_answer-HasMac1 c limit laws b.handshake k.initiation (surroundings mb)))

  -- The responder opens a session.
  bob_answers :
      (k : Meets)
      → ((decapsulate c b from_alice k.first mb).1 ≡ write_to_network k.answer.message)
        × ((decapsulate c b from_alice k.first mb).0.sessions
            ≡ store b.sessions
                (k.answer.session.receiving_index % n_sessions)
                (some k.answer.session))
  unfolding handle_verified_packet
  bob_answers k =
      let mac = initiation-HasMac1 k in
      let verdict =
        calm_passes c limit laws b.rate_limiter mb.now from_alice k.first (pq_init k.initiation)
          k.initiation.sender_idx cookie_reply_sz mac pb.calm k.arrives
          (unfold sender_of in refl) in
      rw
        (passed c b from_alice k.first mb (is_under_load b.rate_limiter).0 (pq_init k.initiation)
          (HasMac1-bytes c limit laws mac) verdict)
        (initiation-Answered c (record b { rate_limiter = (is_under_load b.rate_limiter).0 })
          k.initiation mb k.bob_done k.answer k.answers)

  -- The initiator opens a session, and sends a keepalive through it.
  alice-Confirms :
      (k : Meets) (a1 : Tunn) (out : TunnResult) (sent : Sent)
      → Starts a packet k.alice_sent k.first (a1, out)
      → format_packet_data c.aead k.session [] mc.dst ≡ ok sent
      → Confirms a1 k.session sent (decapsulate c a1 from_bob k.answer.message mc)
  unfolding handle_verified_packet
  alice-Confirms k a1 out sent s f =
      let mac = response-HasMac1 k in
      let verdict =
        calm_passes c limit laws a1.rate_limiter mc.now from_bob k.answer.message
          (pq_response k.reply) k.reply.sender_idx cookie_reply_sz (rw s.limiter mac)
          (rw s.limiter pa.calm) k.returns (unfold sender_of in refl) in
      let t = record a1 { rate_limiter = (is_under_load a1.rate_limiter).0 } in
      let confirmed =
        response-Confirmed c t k.reply mc k.alice_done k.session sent
          (rw (s.sessions, s.current) ia.empty) (rw s.handshake k.completes) f in
      rw
        (passed c a1 from_bob k.answer.message mc (is_under_load a1.rate_limiter).0
          (pq_response k.reply) (HasMac1-bytes c limit laws mac) verdict)
        (record {
          writes = confirmed.writes;
          sessions = confirmed.sessions;
          current = confirmed.current;
          queue = confirmed.queue;
        })

  met : Meets → Meeting c a b packet ma mb mc from_alice from_bob
  met k =
      let (sent, f, _, _, stepped, _) =
        format_packet_data_lem c.aead limit laws.aead_laws k.session [] mc.dst room_c
          (omega arith) in
      let (a1, out) = encapsulate c a packet ma in
      let s =
        encapsulate-Starts c a packet ma k.alice_sent k.first ia.empty
          (omega (arith, ap length ia.nothing)) ia.idle k.sends in
      let (bw, stored) = bob_answers k in
      let confirmed = alice-Confirms k a1 out sent s f in
      let b1 = (decapsulate c b from_alice k.first mb).0 in
      let a2 = (decapsulate c a1 from_bob k.answer.message mc).0 in
      let (j, one) =
        joins k.session k.answer.session k.linked sent.session a2 b1 stepped
          (rw (confirmed.current, confirmed.sessions)
            (stored_there a1.sessions (k.session.receiving_index % n_sessions) sent.session))
          (rw stored (
            stored_there b.sessions (k.answer.session.receiving_index % n_sessions)
              k.answer.session)) in
      record {
        initiation = k.first;
        response = k.answer.message;
        keepalive = sent.packet;
        alice_waits = a1;
        bob_open = b1;
        alice_open = a2;
        initiates = ap (λ r. (a1, r)) s.writes;
        responds = ap (λ r. (b1, r)) bw;
        confirms = ap (λ r. (a2, r)) confirmed.writes;
        queue = confirmed.queue ∙ s.queue ∙ ap (λ q. q ++ (packet ∷ [])) ia.nothing;
        joined = j;
        first = one;
      }

  -- Two tunnels with matching keys, whose limiters are not under load: the first has no session, no
  -- handshake in progress and an empty queue. Given an IP packet, with room for the messages and a
  -- fresh timestamp, it starts a PQ handshake, the two complete it, the packet that waited is sent
  -- through the new session, and the second writes it to its tunnel interface. The two are then
  -- joined by the new session, which has sent two packets.
  pub tunnel_exchange :
      (md me : Moment)
      → length packet ≤ limit
      → length packet + 32 ≤ length md.dst
      → length packet + 16 ≤ length me.dst
      → IsIpv4 packet ⊎ IsIpv6 packet
      → Exchange c a b packet ma mb mc from_alice from_bob md me
  tunnel_exchange =
      meeting-Exchange c limit laws a b packet ma mb mc from_alice from_bob (met handshaken)
