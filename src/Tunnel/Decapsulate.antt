-- ===== src/Tunnel/Decapsulate.antt =====
-- Datagrams from the network: `Tunn::decapsulate` and its handlers, of boringtun/src/noise/mod.rs.
use pq_boringtun.Base.{
  ℕ, ◌+◌, ◌%◌, ◌^◌, true, false, ◌&&◌, ◌==◌, ltb, leb, if◌then◌else◌, [], length, slice, take,
  Option, none, some,
}
use pq_boringtun.Base.Bytes.{Bytes, from_be}
use pq_boringtun.Errors.{Result, ok, err, panics, no_current_session, invalid_packet}
use pq_boringtun.Crypto.{Crypto}
use pq_boringtun.Session.{Session, format_packet_data, receive_packet_data, local_index}
use pq_boringtun.Packet
use pq_boringtun.Packet.{
  cookie_reply_sz, HandshakeInit, HandshakeResponse, PqHandshakeInit, PqHandshakeResponse,
  PacketCookieReply, PacketData,
}
use pq_boringtun.Handshake.Response.{
  Answer, receive_handshake_initialization, receive_pq_handshake_initialization,
}
use pq_boringtun.Handshake.Completion.{
  receive_handshake_response, receive_pq_handshake_response, receive_cookie_reply,
}
use pq_boringtun.RateLimiter
use pq_boringtun.RateLimiter.{IpAddr}
use pq_boringtun.Timers.{
  time_last_packet_received, time_last_packet_sent, time_last_data_packet_received,
  time_cookie_received,
}
use pq_boringtun.Tunnel.{
  Tunn, TunnResult, done, failed, write_to_network, write_to_tunnel_v4, write_to_tunnel_v6,
  panicked, Moment, surroundings, tick, store, n_sessions,
}
use pq_boringtun.Tunnel.{
  tick_session_established, set_current_session, version, ipv4_min_header_size,
  ipv6_min_header_size,
}
use pq_boringtun.Tunnel.Encapsulate.{send_queued_packet}

-- `validate_decapsulated_packet` once the packet's length and source address have been read.
unfoldable pub deliver_packet : Tunn → Bytes → ℕ → (Bytes → TunnResult) → Tunn × TunnResult
deliver_packet t packet computed_len write =
    if ltb (length packet) computed_len then (t, failed invalid_packet) else (
      record (tick t time_last_data_packet_received) {
        rx_bytes = (t.rx_bytes + computed_len) % 2 ^ 64;
      },
      write (take computed_len packet),
    )

-- `Tunn::validate_decapsulated_packet`
unfoldable pub validate_decapsulated_packet : Tunn → Bytes → Tunn × TunnResult
validate_decapsulated_packet t packet =
    if length packet == 0
    then (t, done)
    else if version packet == 4 && leb ipv4_min_header_size (length packet)
    then deliver_packet t packet (from_be (slice packet 2 4))
        (λ text. write_to_tunnel_v4 text (slice packet 12 16))
    else if version packet == 6 && leb ipv6_min_header_size (length packet)
    then deliver_packet t packet (from_be (slice packet 4 6) + ipv6_min_header_size)
        (λ text. write_to_tunnel_v6 text (slice packet 8 24))
    else (t, failed invalid_packet)

-- `unwrap_or_else(TunnResult::from)` after a handler's `?`: the rest runs on a result.
abbrev pub finish {ℓ} : {A : Type ℓ} → Tunn → Result A → (A → Tunn × TunnResult) → Tunn × TunnResult
finish t (ok a) rest = rest a
finish t (err e) rest = (t, failed e)
finish t panics rest = (t, panicked)

-- A responder's new session, and its answer.
unfoldable pub accept_initiation : Tunn → Answer → Tunn × TunnResult
accept_initiation t answer =
    let index = local_index answer.session in
    let t1 = record t { sessions = store t.sessions (index % n_sessions) (some answer.session) } in
    let t2 = tick (tick t1 time_last_packet_received) time_last_packet_sent in
    (tick_session_established t2 false index, write_to_network answer.message)

module _ (c : Crypto) where
  -- An initiator's new session, and a keepalive through it.
  unfoldable pub accept_response : Tunn → Session → Moment → Tunn × TunnResult
  accept_response t session m = finish t (format_packet_data c.aead session [] m.dst) λ sent.
      let l_idx = local_index session in
      let index = l_idx % n_sessions in
      let t1 = record t { sessions = store t.sessions index (some sent.session) } in
      let t2 = tick_session_established (tick t1 time_last_packet_received) true index in
      (set_current_session t2 l_idx, write_to_network sent.packet)

  unfoldable pub handle_handshake_init : Tunn → HandshakeInit → Moment → Tunn × TunnResult
  handle_handshake_init t p m =
      let (h, result) = receive_handshake_initialization c t.handshake p (surroundings m) in
      let t1 = record t { handshake = h } in finish t1 result (accept_initiation t1)

  unfoldable pub handle_pq_handshake_init : Tunn → PqHandshakeInit → Moment → Tunn × TunnResult
  handle_pq_handshake_init t p m =
      let (h, result) = receive_pq_handshake_initialization c t.handshake p (surroundings m) in
      let t1 = record t { handshake = h } in finish t1 result (accept_initiation t1)

  unfoldable pub handle_handshake_response : Tunn → HandshakeResponse → Moment → Tunn × TunnResult
  handle_handshake_response t p m =
      let (h, result) = receive_handshake_response c t.handshake p m.later in
      let t1 = record t { handshake = h } in
      finish t1 result (λ session. accept_response t1 session m)

  unfoldable pub handle_pq_handshake_response :
      Tunn → PqHandshakeResponse → Moment → Tunn × TunnResult
  handle_pq_handshake_response t p m =
      let (h, result) = receive_pq_handshake_response c t.handshake p m.later in
      let t1 = record t { handshake = h } in
      finish t1 result (λ session. accept_response t1 session m)

  unfoldable pub handle_cookie_reply : Tunn → PacketCookieReply → Tunn × TunnResult
  handle_cookie_reply t p =
      let (h, result) = receive_cookie_reply c t.handshake p in
      let t1 = record t { handshake = h } in
      finish t1 result
        (λ unit. (tick (tick t1 time_last_packet_received) time_cookie_received, done))

  -- `handle_data` through the session that it found.
  unfoldable pub receive_through : Tunn → Session → PacketData → Moment → Tunn × TunnResult
  receive_through t session p m =
      let (s, result) = receive_packet_data c.aead session p m.dst in
      let t1 = record t { sessions = store t.sessions (p.receiver_idx % n_sessions) (some s) } in
      finish t1 result λ packet.
        validate_decapsulated_packet
          (tick (set_current_session t1 p.receiver_idx) time_last_packet_received) packet

  unfoldable pub handle_data : Tunn → PacketData → Moment → Tunn × TunnResult
  handle_data t p m = elim (t.sessions (p.receiver_idx % n_sessions)) [
    | none ↦ (t, failed no_current_session)
    | some session ↦ receive_through t session p m
  ]

  unfoldable pub handle_verified_packet : Tunn → Packet.Packet → Moment → Tunn × TunnResult
  handle_verified_packet t (Packet.init p) m = handle_handshake_init t p m
  handle_verified_packet t (Packet.response p) m = handle_handshake_response t p m
  handle_verified_packet t (Packet.cookie p) m = handle_cookie_reply t p
  handle_verified_packet t (Packet.transport p) m = handle_data t p m
  handle_verified_packet t (Packet.pq_init p) m = handle_pq_handshake_init t p m
  handle_verified_packet t (Packet.pq_response p) m = handle_pq_handshake_response t p m

  -- What follows the limiter's verdict; a cookie reply is copied to the front of the destination.
  unfoldable pub follow_verdict : Tunn → RateLimiter.Verdict → Moment → Tunn × TunnResult
  follow_verdict t (RateLimiter.accepted packet) m = handle_verified_packet t packet m
  follow_verdict t (RateLimiter.write_to_network reply) m =
      if ltb (length m.dst) (length reply) then (t, panicked) else (t, write_to_network reply)
  follow_verdict t (RateLimiter.refused e) m = (t, failed e)
  follow_verdict t RateLimiter.crashed m = (t, panicked)

  unfoldable pub decapsulate : Tunn → Option IpAddr → Bytes → Moment → Tunn × TunnResult
  decapsulate t src_addr datagram m =
      if length datagram == 0
      then send_queued_packet c t m
      else let (rl, verdict) =
          RateLimiter.verify_packet c t.rate_limiter m.now src_addr datagram cookie_reply_sz in
        follow_verdict (record t { rate_limiter = rl }) verdict m
