-- ===== src/Tests/Tunnel.antt =====
-- A tunnel in use, with clocks in nanoseconds.
use pq_boringtun.Base.{ℕ, ◌+◌, arith, true, [], ◌∷◌, none, replicate}
use pq_boringtun.Base.Bytes.{Bytes}
use pq_boringtun.RateLimiter.{RateLimiter, new_rate_limiter}
use pq_boringtun.Handshake.{is_in_progress, is_expired}
use pq_boringtun.Handshake.Initiation.{format_pq_handshake_initiation}
use pq_boringtun.Handshake.Completion.{new_handshake, new_params}
use pq_boringtun.Timers.{new_timers}
use pq_boringtun.Tunnel.{Tunn, Moment, new_tunn, own_limiter, queue_packet}
use pq_boringtun.Tunnel.Encapsulate.{encapsulate, format_initiation}
use pq_boringtun.Tunnel.Update.{update_timers}
use pq_boringtun.Tunnel.Valid.{IsValid, IsForward}
use pq_boringtun.Tunnel.Reach.{starts, calls, encapsulates, updates, tunnel-IsValid}
use pq_boringtun.Tunnel.Updated.{Updated}
use pq_boringtun.Base.{inl, slice, ◌≡◌, refl, map}
use pq_boringtun.Base.Bytes.{from_be, from_le}
use pq_boringtun.Handshake.{after, parse_tai64n, stamp}
use pq_boringtun.Tunnel.Carries.{IsIpv4, exchange, exchange-written, written}
use pq_boringtun.Tunnel.Meeting.{IsPeer, IsIdle, Exchange}
use pq_boringtun.Tunnel.Exchange.{tunnel_exchange}
use pq_boringtun.Tests.Primitives.{simple, simple_laws, sized}
use pq_boringtun.Tests.Handshake.{alice_secret, bob_secret, clock, fresh_stamp}

abbrev limiter : RateLimiter
limiter = own_limiter simple (sized 32 alice_secret) [] [] 1000

abbrev alice : Tunn
alice = new_tunn simple alice_secret (sized 32 bob_secret) none 25 1 limiter true clock 1000

abbrev moment : ℕ → Moment
moment now = record {
  dst = replicate 100 0;
  now = now;
  later = now + 5;
  sent_at = now + 6;
  ephemeral_private = 3 ∷ [];
  mlkem_random = 4 ∷ [];
}

forward : IsForward alice (moment 2000)
unfolding new_tunn new_timers
forward = record { first = omega arith; second = omega arith }

abbrev packet : Bytes
packet = 69 ∷ 0 ∷ []

-- A packet is queued, in a buffer that is too small for the initiation.
abbrev queued : Tunn
queued = (encapsulate simple alice packet (moment 2000)).0

queued-IsForward : IsForward queued (moment 3000)
unfolding new_tunn new_timers encapsulate format_initiation queue_packet is_in_progress is_expired
    new_handshake format_pq_handshake_initiation
queued-IsForward = record { first = omega arith; second = omega arith }

tunnel-IsValid_example : IsValid (update_timers simple queued (moment 3000)).0
tunnel-IsValid_example =
    tunnel-IsValid simple alice_secret (sized 32 bob_secret) none 25 1 limiter true clock 1000
      (update_timers simple queued (moment 3000)).0
      (calls (calls starts (encapsulates alice packet (moment 2000) forward))
        (updates queued (moment 3000) queued-IsForward))

abbrev bob : Tunn
bob =
    new_tunn simple bob_secret (sized 32 alice_secret) none 0 2
      (own_limiter simple (sized 32 bob_secret) [] [] 1000) true clock 1000

-- A moment with a large buffer.
abbrev roomy : ℕ → Bytes → Moment
roomy now secret = record {
  dst = replicate 2000 0;
  now = now;
  later = now;
  sent_at = now;
  ephemeral_private = secret;
  mlkem_random = secret;
}

-- An IPv4 packet of a header alone.
abbrev ip_packet : Bytes
ip_packet = 69 ∷ 0 ∷ 0 ∷ 20 ∷ replicate 16 1

alice-IsPeer : IsPeer simple alice_secret bob_secret none alice
unfolding new_tunn new_handshake new_rate_limiter new_params
alice-IsPeer = record { params = refl; index = omega arith; limiter = refl; calm = omega arith }

bob-IsPeer : IsPeer simple bob_secret alice_secret none bob
unfolding new_tunn new_handshake new_rate_limiter new_params
bob-IsPeer = record { params = refl; index = omega arith; limiter = refl; calm = omega arith }

alice-IsIdle : IsIdle alice
unfolding new_tunn new_handshake is_in_progress
alice-IsIdle = record { empty = refl; idle = refl; nothing = refl }

ip_packet-IsIpv4 : IsIpv4 ip_packet
unfolding slice from_be from_le
ip_packet-IsIpv4 = (refl, omega arith, refl)

fresh_later :
    after (parse_tai64n (stamp alice.handshake.stamper 1000)) bob.handshake.last_handshake_timestamp
    ≡ true
unfolding new_tunn new_handshake
fresh_later = fresh_stamp

met :
    Exchange simple alice bob ip_packet
      (roomy 1000 (3 ∷ []))
      (roomy 1000 (4 ∷ []))
      (roomy 2000 [])
      none
      none
      (roomy 2000 [])
      (roomy 3000 [])
met =
    tunnel_exchange simple 65535 simple_laws alice_secret bob_secret none alice bob ip_packet
      (roomy 1000 (3 ∷ [])) (roomy 1000 (4 ∷ [])) (roomy 2000 []) none none alice-IsPeer bob-IsPeer
      alice-IsIdle (omega arith) (omega arith) (omega arith) fresh_later (roomy 2000 [])
      (roomy 3000 []) (omega arith) (omega arith) (omega arith) (inl ip_packet-IsIpv4)

exchange-written_example :
    exchange simple
      (roomy 4000 [])
      (roomy 4000 [])
      none
      met.alice_done
      met.bob_done
      (ip_packet ∷ ip_packet ∷ [])
    ≡ map written (ip_packet ∷ ip_packet ∷ [])
exchange-written_example =
    exchange-written simple 65535 simple_laws (roomy 4000 []) (roomy 4000 []) none
      (ip_packet ∷ ip_packet ∷ []) met.alice_done met.bob_done met.joined
      (omega (arith, met.second))
      (
        (inl ip_packet-IsIpv4, omega arith, omega arith, omega arith),
        ((inl ip_packet-IsIpv4, omega arith, omega arith, omega arith), tt),
      )

tunnel_exchange_example :
    Exchange simple alice bob ip_packet
      (roomy 1000 (3 ∷ []))
      (roomy 1000 (4 ∷ []))
      (roomy 2000 [])
      none
      none
      (roomy 2000 [])
      (roomy 3000 [])
tunnel_exchange_example =
    tunnel_exchange simple 65535 simple_laws alice_secret bob_secret none alice bob ip_packet
      (roomy 1000 (3 ∷ [])) (roomy 1000 (4 ∷ [])) (roomy 2000 []) none none alice-IsPeer bob-IsPeer
      alice-IsIdle (omega arith) (omega arith) (omega arith) fresh_later (roomy 2000 [])
      (roomy 3000 []) (omega arith) (omega arith) (omega arith) (inl ip_packet-IsIpv4)
