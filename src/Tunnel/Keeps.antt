-- ===== src/Tunnel/Keeps.antt =====
-- Every operation that sends keeps the invariant of a tunnel.
use pq_boringtun.Base.{
  ℕ, ◌%◌, ◌≤◌, ◌≡◌, inl, inr, refl, arith, Bool, false, not, ◌&&◌, ◌==◌, List, [], ◌∷◌, length,
  if_both, Option-cases,
}
use pq_boringtun.Base.Bytes.{Bytes}
use pq_boringtun.Errors.{Result, ok, err, panics, Result-cases}
use pq_boringtun.Crypto.{Crypto}
use pq_boringtun.Session.{Session, format_packet_data}
use pq_boringtun.Handshake.{Handshake, is_in_progress, is_expired}
use pq_boringtun.Handshake.Initiation.{format_pq_handshake_initiation}
use pq_boringtun.RateLimiter.{RateLimiter}
use pq_boringtun.Timers.{
  clear, elapsed, time_last_packet_sent, time_last_data_packet_sent, time_last_handshake_started,
  time_current,
}
use pq_boringtun.Timers.Timely.{clear-IsTimely}
use pq_boringtun.Tunnel.{
  Tunn, TunnResult, done, failed, write_to_network, write_to_tunnel_v4, write_to_tunnel_v6,
  panicked, Moment, surroundings, n_sessions, max_queue_depth, queue_packet,
}
use pq_boringtun.Tunnel.Encapsulate.{
  settle, tick_initiation, format_initiation, send_through, encapsulate, send_next,
  send_queued_packet,
}
use pq_boringtun.Tunnel.Decapsulate.{finish}
use pq_boringtun.Tunnel.Valid.{
  IsValid, tick-IsValid, store-IsValid, queue_packet-IsValid, requeue_packet-IsValid,
  format_packet_data_index,
}

-- The invariant of a tunnel beside a result.
abbrev pub Keeps : Tunn × TunnResult → Type 0
Keeps r = IsValid r.0

pub finish-Keeps {ℓ} :
    {A : Type ℓ} (t : Tunn) (r : Result A) (rest : A → Tunn × TunnResult)
    → IsValid t
    → ((a : A) → r ≡ ok a → Keeps (rest a))
    → Keeps (finish t r rest)
finish-Keeps t (ok a) rest v h = h a refl
finish-Keeps t (err e) rest v h = v
finish-Keeps t panics rest v h = v

-- The handshake and the limiter take no part in the invariant.
pub handshake-IsValid :
    (t : Tunn) (h : Handshake) → IsValid t → IsValid (record t { handshake = h })
handshake-IsValid t h v = record { queue = v.queue; placed = v.placed; timely = v.timely }

pub limiter-IsValid :
    (t : Tunn) (rl : RateLimiter) → IsValid t → IsValid (record t { rate_limiter = rl })
limiter-IsValid t rl v = record { queue = v.queue; placed = v.placed; timely = v.timely }

pub counters-IsValid :
    (t : Tunn) (tx rx : ℕ) → IsValid t → IsValid (record t { tx_bytes = tx; rx_bytes = rx })
counters-IsValid t tx rx v = record { queue = v.queue; placed = v.placed; timely = v.timely }

settle-Keeps : (packet : Bytes) (r : Tunn × TunnResult) → Keeps r → Keeps (settle packet r)
settle-Keeps packet (t, failed e) v = requeue_packet-IsValid t v packet
settle-Keeps packet (t, done) v = v
settle-Keeps packet (t, write_to_network bytes) v = v
settle-Keeps packet (t, write_to_tunnel_v4 bytes addr) v = v
settle-Keeps packet (t, write_to_tunnel_v6 bytes addr) v = v
settle-Keeps packet (t, panicked) v = v

pub queue_packet_timers : (t : Tunn) (packet : Bytes) → (queue_packet t packet).timers ≡ t.timers
unfolding queue_packet
queue_packet_timers t packet = ground arith

module _ (c : Crypto) where
  tick_initiation-IsValid :
      (t : Tunn) (starting : Bool) → IsValid t → IsValid (tick_initiation c t starting)
  unfolding tick_initiation
  tick_initiation-IsValid t starting v =
      tick-IsValid _
        (if_both IsValid starting _ _ (λ e. tick-IsValid t v time_last_handshake_started) (λ e. v))
        time_last_packet_sent

  pub format_initiation-Keeps :
      (t : Tunn) (m : Moment) (force : Bool)
      → IsValid t
      → t.timers.timers time_current ≤ elapsed t.timers m.now
      → Keeps (format_initiation c t m force)
  unfolding format_initiation
  format_initiation-Keeps t m force v forward =
      let cleared : IsValid (record t { timers = clear t.timers m.now }) = record {
        queue = v.queue;
        placed = v.placed;
        timely = clear-IsTimely t.timers m.now v.timely forward;
      } in
      let ready = if_both IsValid (is_expired t.handshake) _ t (λ e. cleared) (λ e. v) in
      let out = format_pq_handshake_initiation c t.handshake (surroundings m) in
      let h = handshake-IsValid _ out.0 ready in
      if_both Keeps (is_in_progress t.handshake && not force) _ _ (λ busy. v)
        λ free. elim (Result-cases out.1) [
          | inl (packet, e) ↦ rw e (tick_initiation-IsValid _ (not (is_in_progress t.handshake)) h)
          | inr (inl (reason, e)) ↦ rw e h
          | inr (inr e) ↦ rw e h
        ]

  send_through-Keeps :
      (t : Tunn) (slot : ℕ) (s : Session) (src : Bytes) (m : Moment)
      → IsValid t
      → s.receiving_index % n_sessions ≡ slot
      → Keeps (send_through c t slot s src m)
  unfolding send_through
  send_through-Keeps t slot s src m v h =
      elim (Result-cases (format_packet_data c.aead s src m.dst)) [
        | inl (sent, e) ↦
            let same = format_packet_data_index c.aead s src m.dst sent e in
            let stored = store-IsValid t v slot sent.session (omega arith) in
            let ticked = tick-IsValid _ stored time_last_packet_sent in
            let noted =
              if_both IsValid (not (length src == 0)) _ _
                (λ some_data. tick-IsValid _ ticked time_last_data_packet_sent)
                (λ keepalive. ticked) in
            rw (send_through, e) (counters-IsValid _ _ _ noted)
        | inr (inl (reason, e)) ↦ rw (send_through, e) v
        | inr (inr e) ↦ rw (send_through, e) v
      ]

  pub encapsulate-Keeps :
      (t : Tunn) (src : Bytes) (m : Moment)
      → IsValid t
      → t.timers.timers time_current ≤ elapsed t.timers m.now
      → Keeps (encapsulate c t src m)
  unfolding encapsulate
  encapsulate-Keeps t src m v forward = elim (Option-cases (t.sessions (t.current % n_sessions))) [
    | inl empty ↦
        rw (encapsulate, empty)
          (format_initiation-Keeps _ m false (queue_packet-IsValid t v src)
            (rw (queue_packet_timers t src) forward))
    | inr (s, e) ↦
        rw (encapsulate, e)
          (send_through-Keeps t (t.current % n_sessions) s src m v
            (v.placed (t.current % n_sessions) s e))
  ]

  send_next-Keeps :
      (t : Tunn) (queue : List Bytes) (m : Moment)
      → IsValid t
      → length queue ≤ max_queue_depth
      → t.timers.timers time_current ≤ elapsed t.timers m.now
      → Keeps (send_next c t queue m)
  unfolding send_next
  send_next-Keeps t [] m v h forward = v
  send_next-Keeps t (packet ∷ rest) m v h forward = settle-Keeps packet _ (
      encapsulate-Keeps (record t { packet_queue = rest }) packet m
        (record { queue = omega arith; placed = v.placed; timely = v.timely }) forward)

  pub send_queued_packet-Keeps :
      (t : Tunn) (m : Moment)
      → IsValid t
      → t.timers.timers time_current ≤ elapsed t.timers m.now
      → Keeps (send_queued_packet c t m)
  unfolding send_queued_packet
  send_queued_packet-Keeps t m v forward = send_next-Keeps t t.packet_queue m v v.queue forward
