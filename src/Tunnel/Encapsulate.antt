-- ===== src/Tunnel/Encapsulate.antt =====
-- Packets into the tunnel and handshake initiations: `Tunn::encapsulate`,
-- `Tunn::format_handshake_initiation` and `Tunn::send_queued_packet` of boringtun/src/noise/mod.rs.
use pq_boringtun.Base.{
  ℕ, ◌+◌, ◌%◌, ◌^◌, Bool, false, not, ◌&&◌, ◌==◌, if◌then◌else◌, List, [], ◌∷◌, length, none, some,
}
use pq_boringtun.Base.Bytes.{Bytes}
use pq_boringtun.Errors.{ok, err, panics}
use pq_boringtun.Crypto.{Crypto}
use pq_boringtun.Session.{Session, format_packet_data}
use pq_boringtun.Handshake.{is_in_progress, is_expired}
use pq_boringtun.Handshake.Initiation.{format_pq_handshake_initiation}
use pq_boringtun.Timers.{
  time_last_packet_sent, time_last_data_packet_sent, time_last_handshake_started, clear,
}
use pq_boringtun.Tunnel.{
  Tunn, TunnResult, done, failed, write_to_network, write_to_tunnel_v4, write_to_tunnel_v6,
  panicked, Moment, surroundings, tick, store, n_sessions, queue_packet, requeue_packet,
}

-- On an error the packet goes back to the queue.
abbrev pub settle : Bytes → Tunn × TunnResult → Tunn × TunnResult
settle packet (t, failed e) = (requeue_packet t packet, done)
settle packet (t, done) = (t, done)
settle packet (t, write_to_network bytes) = (t, write_to_network bytes)
settle packet (t, write_to_tunnel_v4 bytes addr) = (t, write_to_tunnel_v4 bytes addr)
settle packet (t, write_to_tunnel_v6 bytes addr) = (t, write_to_tunnel_v6 bytes addr)
settle packet (t, panicked) = (t, panicked)

module _ (c : Crypto) where
  -- The timers after an initiation has been written.
  unfoldable pub tick_initiation : Tunn → Bool → Tunn
  tick_initiation t starting =
      tick (if starting then tick t time_last_handshake_started else t) time_last_packet_sent

  -- `Tunn::format_handshake_initiation`
  unfoldable pub format_initiation : Tunn → Moment → Bool → Tunn × TunnResult
  format_initiation t m force_resend =
      if is_in_progress t.handshake && not force_resend
      then (t, done)
      else let t1 : Tunn =
          if is_expired t.handshake then record t { timers = clear t.timers m.now } else t in
        let (h, result) = format_pq_handshake_initiation c t.handshake (surroundings m) in
        elim result [
          | ok packet ↦ (
            tick_initiation (record t1 { handshake = h }) (not (is_in_progress t.handshake)),
            write_to_network packet,
          )
          | err e ↦ (record t1 { handshake = h }, failed e)
          | panics ↦ (record t1 { handshake = h }, panicked)
        ]

  -- `encapsulate` through a session of the slot `slot`.
  unfoldable pub send_through : Tunn → ℕ → Session → Bytes → Moment → Tunn × TunnResult
  send_through t slot session src m = elim (format_packet_data c.aead session src m.dst) [
    | ok sent ↦
        let t1 =
          tick (record t { sessions = store t.sessions slot (some sent.session) })
            time_last_packet_sent in
        let t2 = if not (length src == 0) then tick t1 time_last_data_packet_sent else t1 in
        (record t2 { tx_bytes = (t.tx_bytes + length src) % 2 ^ 64 }, write_to_network sent.packet)
    | err e ↦ (t, failed e)
    | panics ↦ (t, panicked)
  ]

  -- `Tunn::encapsulate`
  unfoldable pub encapsulate : Tunn → Bytes → Moment → Tunn × TunnResult
  encapsulate t src m = elim (t.sessions (t.current % n_sessions)) [
    | some session ↦ send_through t (t.current % n_sessions) session src m
    | none ↦ format_initiation (queue_packet t src) m false
  ]

  -- `send_queued_packet` with the packets of the queue.
  unfoldable pub send_next : Tunn → List Bytes → Moment → Tunn × TunnResult
  send_next t [] m = (t, done)
  send_next t (packet ∷ rest) m =
      settle packet (encapsulate (record t { packet_queue = rest }) packet m)

  -- `Tunn::send_queued_packet`
  unfoldable pub send_queued_packet : Tunn → Moment → Tunn × TunnResult
  send_queued_packet t m = send_next t t.packet_queue m
