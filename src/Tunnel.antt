-- ===== src/Tunnel.antt =====
-- A tunnel and its small operations, of boringtun/src/noise/mod.rs and boringtun/src/noise/timers.rs,
-- built with the feature `pq`. An array of eight sessions is a function of the slot.
pub mod Encapsulate
pub mod Decapsulate
pub mod Update
pub mod Valid
pub mod Keeps
pub mod Received
pub mod Reach
pub mod Meeting
pub mod Exchange
pub mod Opened
pub mod Carries
pub mod Expiry
pub mod Updated
use pq_boringtun.Base.{
  ℕ, ◌+◌, ◌*◌, ◌/◌, ◌%◌, ◌^◌, Bool, true, false, ltb, leb, ◌==◌, ◌&&◌, ◌||◌, if◌then◌else◌, List,
  [], ◌∷◌, ◌++◌, length, slice,
}
use pq_boringtun.Base.{Option, none, some}
use pq_boringtun.Base.Bytes.{Bytes}
use pq_boringtun.Errors.{WireGuardError, Result, ok, err, panics}
use pq_boringtun.Crypto.{Crypto}
use pq_boringtun.Session.{Session}
use pq_boringtun.RateLimiter.{RateLimiter, IpAddr, v4, v6, new_rate_limiter}
use pq_boringtun.Timers.{
  Timers, TimerName, new_timers, timer_tick, time_session_established, time_current, clear,
}
use pq_boringtun.Handshake.{Handshake, TimeStamper}
use pq_boringtun.Handshake.Initiation.{Surroundings}
use pq_boringtun.Handshake.Completion.{new_handshake, set_static_private}

abbrev pub peer_handshake_rate_limit : ℕ
peer_handshake_rate_limit = 10

abbrev pub ipv4_min_header_size : ℕ
ipv4_min_header_size = 20

abbrev pub ipv6_min_header_size : ℕ
ipv6_min_header_size = 40

abbrev pub max_queue_depth : ℕ
max_queue_depth = 256

abbrev pub n_sessions : ℕ
n_sessions = 8

-- `TunnResult`, with a panic as an outcome. The addresses are their octets.
pub data TunnResult : Type 0 where
  done : TunnResult
  failed : WireGuardError → TunnResult
  write_to_network : Bytes → TunnResult
  write_to_tunnel_v4 write_to_tunnel_v6 : Bytes → Bytes → TunnResult
  panicked : TunnResult

-- `Tunn`. A rate limiter that peers share is seen by one of them at a time.
pub record Tunn : Type 0 where
  pub handshake : Handshake
  pub sessions : ℕ → Option Session
  pub current : ℕ
  pub packet_queue : List Bytes
  pub timers : Timers
  pub tx_bytes : ℕ
  pub rx_bytes : ℕ
  pub rate_limiter : RateLimiter

-- What a call takes from its surroundings: the destination buffer, the first and the later readings
-- of the clock and the one that an initiation keeps as the time of sending, a new ephemeral secret,
-- and randomness for ML-KEM.
pub record Moment : Type 0 where
  pub dst : Bytes
  pub now : ℕ
  pub later : ℕ
  pub sent_at : ℕ
  pub ephemeral_private : Bytes
  pub mlkem_random : Bytes

abbrev pub surroundings : Moment → Surroundings
surroundings m = record {
  dst_len = length m.dst;
  now = m.later;
  sent_at = m.sent_at;
  ephemeral_private = m.ephemeral_private;
  mlkem_random = m.mlkem_random;
}

-- `self.sessions[slot] = session`
abbrev pub store : (ℕ → Option Session) → ℕ → Option Session → ℕ → Option Session
store sessions slot session other = if other == slot then session else sessions other

abbrev pub tick : Tunn → TimerName → Tunn
tick t name = record t { timers = timer_tick t.timers name }

-- `Tunn::timer_tick_session_established`
unfoldable pub tick_session_established : Tunn → Bool → ℕ → Tunn
tick_session_established t is_initiator session_idx =
    let ticked = timer_tick t.timers time_session_established in
    record t {
      timers = record ticked {
        session_timers = λ slot.
            if slot == session_idx % n_sessions
            then ticked.timers time_current
            else ticked.session_timers slot;
        is_initiator = is_initiator;
      };
    }

-- `Tunn::set_current_session`
unfoldable pub set_current_session : Tunn → ℕ → Tunn
set_current_session t new_idx =
    if t.current == new_idx then t else elim (t.sessions (t.current % n_sessions)) [
      | none ↦ record t { current = new_idx }
      | some s ↦
          if leb (t.timers.session_timers (t.current % n_sessions))
            (t.timers.session_timers (new_idx % n_sessions))
          then record t { current = new_idx }
          else t
    ]

-- `Tunn::queue_packet`
unfoldable pub queue_packet : Tunn → Bytes → Tunn
queue_packet t packet =
    if ltb (length t.packet_queue) max_queue_depth
    then record t { packet_queue = t.packet_queue ++ (packet ∷ []) }
    else t

-- `Tunn::requeue_packet`
unfoldable pub requeue_packet : Tunn → Bytes → Tunn
requeue_packet t packet =
    if ltb (length t.packet_queue) max_queue_depth
    then record t { packet_queue = packet ∷ t.packet_queue }
    else t

-- `Tunn::clear_all`
unfoldable pub clear_all : Tunn → ℕ → Tunn
clear_all t now = record t {
  sessions = λ slot. none;
  packet_queue = [];
  timers = clear t.timers now;
}

-- The first four bits of a packet.
abbrev pub version : Bytes → ℕ
version [] = 0
version (b ∷ bs) = b / 16

-- `Tunn::dst_address`
unfoldable pub dst_address : Bytes → Option IpAddr
dst_address packet =
    if length packet == 0
    then none
    else if version packet == 4 && leb ipv4_min_header_size (length packet)
    then some (v4 (slice packet 16 20))
    else if version packet == 6 && leb ipv6_min_header_size (length packet)
    then some (v6 (slice packet 24 40))
    else none

-- The limiter that a tunnel makes when it is given none, from its public key and random bytes.
abbrev pub own_limiter : Crypto → Bytes → Bytes → Bytes → ℕ → RateLimiter
own_limiter c static_public secret_key nonce_key now =
    new_rate_limiter c static_public peer_handshake_rate_limit secret_key nonce_key now

-- `Tunn::new`, with the limiter that it is given or has made. `index << 8` is a `u32`.
unfoldable pub new_tunn :
    Crypto → Bytes → Bytes → Option Bytes → ℕ → ℕ → RateLimiter → Bool → TimeStamper → ℕ → Tunn
new_tunn c static_private peer_static_public preshared_key persistent_keepalive index limiter given
      stamper now =
    record {
      handshake =
          new_handshake c static_private (c.public_key static_private) peer_static_public
            (index * 2 ^ 8 % 2 ^ 32) preshared_key stamper;
      sessions = λ slot. none;
      current = 0;
      packet_queue = [];
      timers = new_timers persistent_keepalive (if given then false else true) now;
      tx_bytes = 0;
      rx_bytes = 0;
      rate_limiter = limiter;
    }

-- `Tunn::set_static_private`, with the limiter that it is given or has made.
unfoldable pub set_tunn_private :
    Crypto → Tunn → Bytes → Bytes → RateLimiter → Bool → Tunn × Result (Unit {0})
set_tunn_private c t static_private static_public limiter given =
    let t' = record t {
      timers = record (t.timers) { should_reset_rr = if given then false else true };
      rate_limiter = limiter;
    } in
    elim (set_static_private c t.handshake static_private static_public) [
      | ok h ↦ (record t' { handshake = h; sessions = λ slot. none }, ok tt)
      | err e ↦ (t', err e)
      | panics ↦ (t', panics)
    ]
