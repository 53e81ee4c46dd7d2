-- ===== src/Tests/Limiter.antt =====
-- A limiter of the responder, and an initiation that is sent to it.
use pq_boringtun.Base.{
  ◌-◌, ◌≤◌, ◌≡◌, refl, ap, ◌∙◌, arith, true, [], ◌∷◌, ◌++◌, none, some, length, take, drop,
  replicate,
}
use pq_boringtun.Base.Bytes.{Bytes, to_le}
use pq_boringtun.Errors.{ok}
use pq_boringtun.Packet.{HandshakeInit, init, parse_incoming_packet}
use pq_boringtun.Packet.Complete.{parse-format}
use pq_boringtun.Handshake.{Handshake}
use pq_boringtun.Handshake.Chain.{b2s_hash, b2s_keyed_mac_16, b2s_keyed_mac_16_2}
use pq_boringtun.Handshake.Initiation.{append_mac1_and_mac2}
use pq_boringtun.Handshake.Completion.{new_handshake, new_params}
use pq_boringtun.Handshake.Macs.{append_macs, init_layout}
use pq_boringtun.RateLimiter.{
  RateLimiter, IpAddr, v4, accepted, new_rate_limiter, current_cookie, verify_packet, sender_of,
  verify_macs,
}
use pq_boringtun.RateLimiter.Cookie.{CookieReply, format-CookieReply}
use pq_boringtun.RateLimiter.Verify.{cookie_passes, accepted_checked, bad_mac_uncounted}
use pq_boringtun.Tests.Primitives.{simple, simple_laws, sized}
use pq_boringtun.Tests.Handshake.{alice, bob_secret}

-- Two packets have been counted, the limit.
abbrev limiter : RateLimiter
limiter = record (new_rate_limiter simple (sized 32 bob_secret) 2 (5 ∷ []) (6 ∷ []) 0) { count = 2 }

abbrev home : IpAddr
home = v4 (127 ∷ 0 ∷ 0 ∷ 1 ∷ [])

abbrev initiation : HandshakeInit
initiation = record {
  sender_idx = 9;
  unencrypted_ephemeral = replicate 32 1;
  encrypted_static = replicate 48 2;
  encrypted_timestamp = replicate 28 3;
}

abbrev body : Bytes
body = to_le 4 1 ++ (to_le 4 9 ++ (replicate 32 1 ++ (replicate 48 2 ++ replicate 28 3)))

-- The initiator, with the cookie of its address.
abbrev sender : Handshake
sender = record alice {
  cookies = record (alice.cookies) { write_cookie = some (current_cookie simple limiter 7 home) };
}

abbrev datagram : Bytes
datagram = (append_mac1_and_mac2 simple sender 9 body).1

datagram_parsed : parse_incoming_packet datagram ≡ ok (init initiation)
datagram_parsed =
    let (rest, e, n) = append_macs simple 65535 simple_laws sender 9 body in
    ap parse_incoming_packet (e ∙ init_layout rest initiation)
    ∙ parse-format (init initiation) rest (omega arith, refl, refl, refl) n

datagram_passes :
    (verify_packet simple limiter 7 (some home) datagram 100).1 ≡ accepted (init initiation)
unfolding new_handshake new_params new_rate_limiter sender_of
datagram_passes =
    cookie_passes simple 65535 simple_laws limiter 7 home sender 9 body (init initiation) 9 100 refl
      refl datagram_parsed refl

format-CookieReply_example : CookieReply simple limiter 9 (replicate 16 4) (replicate 16 5) 64
format-CookieReply_example =
    format-CookieReply simple 65535 simple_laws limiter 9 (replicate 16 4) (replicate 16 5) 64
      (omega arith) refl (omega arith)

cookie_passes_example :
    (verify_packet simple limiter 7 (some home) (append_mac1_and_mac2 simple sender 9 body).1 100).1
    ≡ accepted (init initiation)
unfolding new_handshake new_params new_rate_limiter sender_of
cookie_passes_example =
    cookie_passes simple 65535 simple_laws limiter 7 home sender 9 body (init initiation) 9 100 refl
      refl datagram_parsed refl

accepted_checked_example :
    (simple.verify_slices_are_equal
        (take 16 (b2s_keyed_mac_16 simple limiter.mac1_key (take (length datagram - 32) datagram)))
        (take 16 (drop (length datagram - 32) datagram))
      ≡ true)
    × (limiter.limit ≤ limiter.count
        → (addr : IpAddr) × (some home ≡ some addr)
          × (simple.verify_slices_are_equal
                (take 16 (
                  b2s_keyed_mac_16_2 simple
                    (current_cookie simple limiter 7 addr)
                    (take (length datagram - 32) datagram)
                    (take 16 (drop (length datagram - 32) datagram))))
                (drop 16 (drop (length datagram - 32) datagram))
              ≡ true))
unfolding sender_of
accepted_checked_example =
    accepted_checked simple limiter 7 (some home) datagram 100 (init initiation) 9 datagram_passes
      refl

-- The same initiation with other bytes for its MACs.
abbrev forged : Bytes
forged = body ++ replicate 32 8

forged_parsed : parse_incoming_packet forged ≡ ok (init initiation)
forged_parsed =
    ap parse_incoming_packet (init_layout (replicate 32 8) initiation)
    ∙ parse-format (init initiation) (replicate 32 8) (omega arith, refl, refl, refl) refl

bad_mac_uncounted_example : (verify_packet simple limiter 7 none forged 100).0 ≡ limiter
unfolding verify_packet verify_macs sender_of new_rate_limiter b2s_hash b2s_keyed_mac_16 sized to_le
bad_mac_uncounted_example =
    bad_mac_uncounted simple limiter 7 none forged 100 (rw (verify_packet, forged_parsed) refl)
