-- ===== src/Tunnel/Opened.antt =====
-- The messages of a handshake as they pass through a tunnel, each when it succeeds.
use pq_boringtun.Base.{
  ℕ, ◌%◌, ◌<◌, ◌≡◌, ◌≢◌, refl, ap, arith, true, false, ◌==◌, lt→ltb, le→leb, if_both, [], ◌∷◌, ◌++◌,
  length, Option, none, some, ◌⊎◌, inl, inr, Bool-cases, Option-cases,
}
use pq_boringtun.Base.Bytes.{Bytes}
use pq_boringtun.Errors.{ok}
use pq_boringtun.Crypto.{Crypto}
use pq_boringtun.Session.{Session, Sent, format_packet_data, local_index}
use pq_boringtun.RateLimiter.{RateLimiter, IpAddr, accepted, verify_packet}
use pq_boringtun.Packet.{Packet, cookie_reply_sz, PqHandshakeInit, PqHandshakeResponse}
use pq_boringtun.Handshake.{Handshake, is_in_progress}
use pq_boringtun.Handshake.Initiation.{format_pq_handshake_initiation}
use pq_boringtun.Handshake.Response.{Answer, receive_pq_handshake_initialization}
use pq_boringtun.Handshake.Completion.{receive_pq_handshake_response}
use pq_boringtun.Tunnel.{
  Tunn, TunnResult, write_to_network, Moment, surroundings, store, n_sessions, max_queue_depth,
  queue_packet, set_current_session, tick_session_established,
}
use pq_boringtun.Tunnel.Encapsulate.{encapsulate, format_initiation, tick_initiation}
use pq_boringtun.Tunnel.Decapsulate.{
  accept_initiation, accept_response, handle_pq_handshake_init, handle_pq_handshake_response,
  handle_verified_packet, follow_verdict, decapsulate,
}

-- A tunnel without a session queues the packet and starts a handshake.
pub record Starts (t : Tunn) (src : Bytes) (h : Handshake) (message : Bytes) (r : Tunn × TunnResult)
    : Type 0 where
  pub writes : r.1 ≡ write_to_network message
  pub handshake : r.0.handshake ≡ h
  pub sessions : r.0.sessions ≡ t.sessions
  pub current : r.0.current ≡ t.current
  pub queue : r.0.packet_queue ≡ t.packet_queue ++ (src ∷ [])
  pub limiter : r.0.rate_limiter ≡ t.rate_limiter

-- A tunnel with a new session stores it, makes it current, and sends a packet through it.
pub record Confirms (t : Tunn) (s : Session) (sent : Sent) (r : Tunn × TunnResult) : Type 0 where
  pub writes : r.1 ≡ write_to_network sent.packet
  pub sessions :
      r.0.sessions ≡ store t.sessions (s.receiving_index % n_sessions) (some sent.session)
  pub current : r.0.current ≡ s.receiving_index
  pub queue : r.0.packet_queue ≡ t.packet_queue

here : (t : Tunn) (i : ℕ) → t.current == i ≡ true → t ≡ record t { current = i }
here t i e = let same : t.current ≡ i = ground arith in ap (λ n. record t { current = n }) same

-- A session replaces the current one when there is none, or in the same slot.
replaces :
    (t : Tunn) (i : ℕ)
    → (t.sessions (t.current % n_sessions) ≡ none) ⊎ (t.current % n_sessions ≡ i % n_sessions)
    → set_current_session t i ≡ record t { current = i }
unfolding set_current_session
replaces t i (inl empty) =
    rw (set_current_session, empty)
      (if_both (λ u. u ≡ record t { current = i }) (t.current == i) t _ (here t i) (λ other. refl))
replaces t i (inr same) =
    if_both (λ u. u ≡ record t { current = i }) (t.current == i) t _ (here t i)
      λ other. elim (Option-cases (t.sessions (t.current % n_sessions))) [
        | inl empty ↦ rw empty refl
        | inr (s, full) ↦
            let age = t.timers.session_timers (i % n_sessions) in
            rw (full, same, le→leb age age (omega arith)) refl
      ]

now_current :
    (sessions : ℕ → Option Session) (current i : ℕ) (s : Session)
    → sessions (current % n_sessions) ≡ none
    → (store sessions (i % n_sessions) (some s) (current % n_sessions) ≡ none)
      ⊎ (current % n_sessions ≡ i % n_sessions)
now_current sessions current i s empty =
    elim (Bool-cases (current % n_sessions == i % n_sessions)) [
      | inl same ↦ inr (ground arith)
      | inr other ↦ inl (rw other empty)
    ]

module _ (c : Crypto) where
  pub encapsulate-Starts :
      (t : Tunn) (src : Bytes) (m : Moment) (h : Handshake) (message : Bytes)
      → t.sessions (t.current % n_sessions) ≡ none
      → length t.packet_queue < max_queue_depth
      → is_in_progress t.handshake ≡ false
      → format_pq_handshake_initiation c t.handshake (surroundings m) ≡ (h, ok message)
      → Starts t src h message (encapsulate c t src m)
  unfolding encapsulate format_initiation queue_packet tick_initiation
  encapsulate-Starts t src m h message empty room idle e =
      rw (encapsulate, empty)
        (rw (lt→ltb (length t.packet_queue) max_queue_depth room) (
          rw (format_initiation, idle, e)
            (record {
              writes = refl;
              handshake = ground arith;
              sessions = ground arith;
              current = ground arith;
              queue = ground arith;
              limiter = ground arith;
            })))

  -- The responder's new session is in its slot, and the answer is written.
  pub initiation-Answered :
      (t : Tunn) (p : PqHandshakeInit) (m : Moment) (h : Handshake) (answer : Answer)
      → receive_pq_handshake_initialization c t.handshake p (surroundings m) ≡ (h, ok answer)
      → ((handle_pq_handshake_init c t p m).1 ≡ write_to_network answer.message)
        × ((handle_pq_handshake_init c t p m).0.sessions
            ≡ store t.sessions (answer.session.receiving_index % n_sessions) (some answer.session))
  unfolding handle_pq_handshake_init accept_initiation tick_session_established local_index
  initiation-Answered t p m h answer e = rw (handle_pq_handshake_init, e) (refl, refl)

  -- The initiator's new session, after its first packet, is the current one, and the queue stays.
  pub response-Confirmed :
      (t : Tunn) (p : PqHandshakeResponse) (m : Moment) (h : Handshake) (s : Session) (sent : Sent)
      → t.sessions (t.current % n_sessions) ≡ none
      → receive_pq_handshake_response c t.handshake p m.later ≡ (h, ok s)
      → format_packet_data c.aead s [] m.dst ≡ ok sent
      → Confirms t s sent (handle_pq_handshake_response c t p m)
  unfolding handle_pq_handshake_response accept_response tick_session_established local_index
  response-Confirmed t p m h s sent empty e f =
      rw (handle_pq_handshake_response, e)
        (rw (accept_response, f)
          (record {
            writes = refl;
            sessions =
                ap (λ u. u.sessions)
                  (replaces _ s.receiving_index
                    (now_current t.sessions t.current s.receiving_index sent.session empty));
            current =
                ap (λ u. u.current)
                  (replaces _ s.receiving_index
                    (now_current t.sessions t.current s.receiving_index sent.session empty));
            queue =
                ap (λ u. u.packet_queue)
                  (replaces _ s.receiving_index
                    (now_current t.sessions t.current s.receiving_index sent.session empty));
          }))

  -- A datagram that the limiter accepts goes on to its handler.
  pub passed :
      (t : Tunn) (src_addr : Option IpAddr) (datagram : Bytes) (m : Moment) (rl : RateLimiter)
      (packet : Packet)
      → length datagram ≢ 0
      → verify_packet c t.rate_limiter m.now src_addr datagram cookie_reply_sz
        ≡ (rl, accepted packet)
      → decapsulate c t src_addr datagram m
        ≡ handle_verified_packet c (record t { rate_limiter = rl }) packet m
  unfolding decapsulate follow_verdict
  passed t src_addr datagram m rl packet some_bytes e =
      if_both (λ r. r ≡ handle_verified_packet c (record t { rate_limiter = rl }) packet m)
        (length datagram == 0) _ _ (λ none_left. absurd (ground arith)) (λ x. rw e refl)
