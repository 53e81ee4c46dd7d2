-- ===== src/Tunnel/Received.antt =====
-- Every operation that receives keeps the invariant of a tunnel.
use pq_boringtun.Base.{
  ℕ, ◌%◌, ◌≤◌, ◌≡◌, inl, inr, refl, arith, true, false, ◌&&◌, ◌==◌, ltb, leb, [], length, Option,
  if_both, Option-cases,
}
use pq_boringtun.Base.Bytes.{Bytes}
use pq_boringtun.Crypto.{Crypto}
use pq_boringtun.Session.{Session, local_index, format_packet_data, receive_packet_data}
use pq_boringtun.Packet
use pq_boringtun.Packet.{
  HandshakeInit, HandshakeResponse, PqHandshakeInit, PqHandshakeResponse, PacketCookieReply,
  PacketData,
}
use pq_boringtun.Handshake.Response.{
  Answer, receive_handshake_initialization, receive_pq_handshake_initialization,
}
use pq_boringtun.Handshake.Completion.{
  receive_handshake_response, receive_pq_handshake_response, receive_cookie_reply,
}
use pq_boringtun.RateLimiter.{RateLimiter, IpAddr}
use pq_boringtun.RateLimiter
use pq_boringtun.Timers.{elapsed, time_last_packet_sent, time_current}
use pq_boringtun.Timers.{
  time_last_packet_received, time_last_data_packet_received, time_cookie_received,
}
use pq_boringtun.Tunnel.{Tunn, TunnResult, Moment, surroundings, n_sessions, version}
use pq_boringtun.Tunnel.Decapsulate.{
  deliver_packet, validate_decapsulated_packet, accept_initiation, accept_response, follow_verdict,
  decapsulate,
}
use pq_boringtun.Tunnel.Decapsulate.{
  handle_handshake_init, handle_pq_handshake_init, handle_handshake_response,
  handle_pq_handshake_response, handle_cookie_reply, receive_through, handle_data,
  handle_verified_packet,
}
use pq_boringtun.Tunnel.Valid.{
  IsValid, tick-IsValid, store-IsValid, tick_session_established-IsValid,
  set_current_session-IsValid, format_packet_data_index, receive_packet_data_index,
}
use pq_boringtun.Tunnel.Keeps.{
  Keeps, finish-Keeps, handshake-IsValid, limiter-IsValid, counters-IsValid,
  send_queued_packet-Keeps,
}

accept_initiation-Keeps :
    (t : Tunn) (answer : Answer) → IsValid t → Keeps (accept_initiation t answer)
unfolding accept_initiation local_index
accept_initiation-Keeps t answer v =
    let index = answer.session.receiving_index in
    let stored = store-IsValid t v (index % n_sessions) answer.session refl in
    tick_session_established-IsValid _
      (tick-IsValid _ (tick-IsValid _ stored time_last_packet_received) time_last_packet_sent) false
      index

deliver-Keeps :
    (t : Tunn) (packet : Bytes) (len : ℕ) (write : Bytes → TunnResult)
    → IsValid t
    → Keeps (deliver_packet t packet len write)
unfolding deliver_packet
deliver-Keeps t packet len write v =
    if_both Keeps (ltb (length packet) len) _ _ (λ e. v)
      (λ e. counters-IsValid _ _ _ (tick-IsValid t v time_last_data_packet_received))

validate-Keeps :
    (t : Tunn) (packet : Bytes) → IsValid t → Keeps (validate_decapsulated_packet t packet)
unfolding validate_decapsulated_packet
validate-Keeps t packet v =
    if_both Keeps (length packet == 0) _ _ (λ e. v)
      λ e.
        if_both Keeps (version packet == 4 && leb 20 (length packet)) _ _
          (λ e4. deliver-Keeps t packet _ _ v)
          λ e4.
            if_both Keeps (version packet == 6 && leb 40 (length packet)) _ _
              (λ e6. deliver-Keeps t packet _ _ v) (λ e6. v)

module _ (c : Crypto) where
  handle_handshake_init-Keeps :
      (t : Tunn) (p : HandshakeInit) (m : Moment)
      → IsValid t
      → Keeps (handle_handshake_init c t p m)
  unfolding handle_handshake_init
  handle_handshake_init-Keeps t p m v =
      let out = receive_handshake_initialization c t.handshake p (surroundings m) in
      let h = handshake-IsValid t out.0 v in
      finish-Keeps _ out.1 _ h (λ answer e. accept_initiation-Keeps _ answer h)

  handle_pq_handshake_init-Keeps :
      (t : Tunn) (p : PqHandshakeInit) (m : Moment)
      → IsValid t
      → Keeps (handle_pq_handshake_init c t p m)
  unfolding handle_pq_handshake_init
  handle_pq_handshake_init-Keeps t p m v =
      let out = receive_pq_handshake_initialization c t.handshake p (surroundings m) in
      let h = handshake-IsValid t out.0 v in
      finish-Keeps _ out.1 _ h (λ answer e. accept_initiation-Keeps _ answer h)

  accept_response-Keeps :
      (t : Tunn) (s : Session) (m : Moment) → IsValid t → Keeps (accept_response c t s m)
  unfolding accept_response local_index
  accept_response-Keeps t s m v =
      finish-Keeps t (format_packet_data c.aead s [] m.dst) _ v λ sent e.
        let same = format_packet_data_index c.aead s [] m.dst sent e in
        let stored =
          store-IsValid t v (s.receiving_index % n_sessions) sent.session (omega arith) in
        set_current_session-IsValid _
          (tick_session_established-IsValid _ (tick-IsValid _ stored time_last_packet_received) true
            (s.receiving_index % n_sessions))
          s.receiving_index

  handle_handshake_response-Keeps :
      (t : Tunn) (p : HandshakeResponse) (m : Moment)
      → IsValid t
      → Keeps (handle_handshake_response c t p m)
  unfolding handle_handshake_response
  handle_handshake_response-Keeps t p m v =
      let out = receive_handshake_response c t.handshake p m.later in
      let h = handshake-IsValid t out.0 v in
      finish-Keeps _ out.1 _ h (λ session e. accept_response-Keeps _ session m h)

  handle_pq_handshake_response-Keeps :
      (t : Tunn) (p : PqHandshakeResponse) (m : Moment)
      → IsValid t
      → Keeps (handle_pq_handshake_response c t p m)
  unfolding handle_pq_handshake_response
  handle_pq_handshake_response-Keeps t p m v =
      let out = receive_pq_handshake_response c t.handshake p m.later in
      let h = handshake-IsValid t out.0 v in
      finish-Keeps _ out.1 _ h (λ session e. accept_response-Keeps _ session m h)

  handle_cookie_reply-Keeps :
      (t : Tunn) (p : PacketCookieReply) → IsValid t → Keeps (handle_cookie_reply c t p)
  unfolding handle_cookie_reply
  handle_cookie_reply-Keeps t p v =
      let out = receive_cookie_reply c t.handshake p in
      let h = handshake-IsValid t out.0 v in
      finish-Keeps _ out.1 _ h
        λ unit e. tick-IsValid _ (tick-IsValid _ h time_last_packet_received) time_cookie_received

  receive_through-Keeps :
      (t : Tunn) (s : Session) (p : PacketData) (m : Moment)
      → IsValid t
      → s.receiving_index % n_sessions ≡ p.receiver_idx % n_sessions
      → Keeps (receive_through c t s p m)
  unfolding receive_through
  receive_through-Keeps t s p m v h =
      let out = receive_packet_data c.aead s p m.dst in
      let same = receive_packet_data_index c.aead s p m.dst in
      let stored = store-IsValid t v (p.receiver_idx % n_sessions) out.0 (omega arith) in
      finish-Keeps _ out.1 _ stored λ packet e. validate-Keeps _ packet (
        tick-IsValid _ (set_current_session-IsValid _ stored p.receiver_idx)
          time_last_packet_received)

  handle_data-Keeps :
      (t : Tunn) (p : PacketData) (m : Moment) → IsValid t → Keeps (handle_data c t p m)
  unfolding handle_data
  handle_data-Keeps t p m v = elim (Option-cases (t.sessions (p.receiver_idx % n_sessions))) [
    | inl empty ↦ rw (handle_data, empty) v
    | inr (s, e) ↦
        rw (handle_data, e)
          (receive_through-Keeps t s p m v (v.placed (p.receiver_idx % n_sessions) s e))
  ]

  pub handle_verified_packet-Keeps :
      (t : Tunn) (p : Packet.Packet) (m : Moment)
      → IsValid t
      → Keeps (handle_verified_packet c t p m)
  unfolding handle_verified_packet
  handle_verified_packet-Keeps t (Packet.init p) m v = handle_handshake_init-Keeps t p m v
  handle_verified_packet-Keeps t (Packet.response p) m v = handle_handshake_response-Keeps t p m v
  handle_verified_packet-Keeps t (Packet.cookie p) m v = handle_cookie_reply-Keeps t p v
  handle_verified_packet-Keeps t (Packet.transport p) m v = handle_data-Keeps t p m v
  handle_verified_packet-Keeps t (Packet.pq_init p) m v = handle_pq_handshake_init-Keeps t p m v
  handle_verified_packet-Keeps t (Packet.pq_response p) m v =
      handle_pq_handshake_response-Keeps t p m v

  verdict-Keeps :
      (t : Tunn) (verdict : RateLimiter.Verdict) (m : Moment)
      → IsValid t
      → Keeps (follow_verdict c t verdict m)
  unfolding follow_verdict
  verdict-Keeps t (RateLimiter.accepted packet) m v = handle_verified_packet-Keeps t packet m v
  verdict-Keeps t (RateLimiter.write_to_network reply) m v =
      if_both Keeps (ltb (length m.dst) (length reply)) _ _ (λ e. v) (λ e. v)
  verdict-Keeps t (RateLimiter.refused e) m v = v
  verdict-Keeps t RateLimiter.crashed m v = v

  pub decapsulate-Keeps :
      (t : Tunn) (src_addr : Option IpAddr) (datagram : Bytes) (m : Moment)
      → IsValid t
      → t.timers.timers time_current ≤ elapsed t.timers m.now
      → Keeps (decapsulate c t src_addr datagram m)
  unfolding decapsulate
  decapsulate-Keeps t src_addr datagram m v forward =
      let out = RateLimiter.verify_packet c t.rate_limiter m.now src_addr datagram 64 in
      let counted = limiter-IsValid t out.0 v in
      if_both Keeps (length datagram == 0) _ _ (λ e. send_queued_packet-Keeps c t m v forward)
        λ e. verdict-Keeps (record t { rate_limiter = out.0 }) out.1 m counted
