-- ===== src/RateLimiter/Verify.antt =====
-- Which datagrams a limiter lets through, of boringtun/src/noise/rate_limiter.rs.
use pq_boringtun.Base.{
  ℕ, ◌-◌, ◌≤◌, ◌≡◌, arith, true, length, take, drop, Option, some, inl, inr, Option-cases,
}
use pq_boringtun.Base.Bytes.{Bytes}
use pq_boringtun.Errors.{ok, invalid_mac}
use pq_boringtun.Crypto.{Crypto, CryptoLaws}
use pq_boringtun.Packet.{Packet, parse_incoming_packet}
use pq_boringtun.Handshake.{Handshake}
use pq_boringtun.Handshake.Chain.{b2s_keyed_mac_16, b2s_keyed_mac_16_2}
use pq_boringtun.Handshake.Initiation.{append_mac1_and_mac2}
use pq_boringtun.RateLimiter
use pq_boringtun.RateLimiter.Cookie.{macs_of, verified}

-- A handshake message that the code writes with the current cookie of the sender's address, under
-- the limiter's own MAC1 key, is accepted, under load or not.
pub cookie_passes :
    (c : Crypto) (limit : ℕ) (laws : CryptoLaws c limit) (rl : RateLimiter.RateLimiter) (now : ℕ)
    (addr : RateLimiter.IpAddr) (h : Handshake) (index : ℕ) (body : Bytes) (packet : Packet)
    (sender dst_len : ℕ)
    → h.cookies.write_cookie ≡ some (RateLimiter.current_cookie c rl now addr)
    → h.params.sending_mac1_key ≡ rl.mac1_key
    → parse_incoming_packet (append_mac1_and_mac2 c h index body).1 ≡ ok packet
    → RateLimiter.sender_of packet ≡ some sender
    → (RateLimiter.verify_packet c rl now
        (some addr)
        (append_mac1_and_mac2 c h index body).1
        dst_len).1
      ≡ RateLimiter.accepted packet
unfolding RateLimiter.verify_packet
cookie_passes c limit laws rl now addr h index body packet sender dst_len cookie key parsed from =
    let src = (append_mac1_and_mac2 c h index body).1 in
    let text =
      macs_of c limit laws h index body (RateLimiter.current_cookie c rl now addr) cookie in
    rw (RateLimiter.verify_packet, parsed, from, text, key)
      (verified c limit laws rl now addr packet sender body dst_len)

module _ (c : Crypto) (rl : RateLimiter.RateLimiter) (now : ℕ)
    (src_addr : Option RateLimiter.IpAddr) (src : Bytes) (dst_len : ℕ) where
  -- A handshake message that is accepted has a valid MAC1, and under load also a valid MAC2 for the
  -- address that it came from.
  pub accepted_checked :
      (packet : Packet) (sender : ℕ)
      → (RateLimiter.verify_packet c rl now src_addr src dst_len).1 ≡ RateLimiter.accepted packet
      → RateLimiter.sender_of packet ≡ some sender
      → (c.verify_slices_are_equal
            (take 16 (b2s_keyed_mac_16 c rl.mac1_key (take (length src - 32) src)))
            (take 16 (drop (length src - 32) src))
          ≡ true)
        × (rl.limit ≤ rl.count
            → (addr : RateLimiter.IpAddr) × (src_addr ≡ some addr)
              × (c.verify_slices_are_equal
                    (take 16 (
                      b2s_keyed_mac_16_2 c
                        (RateLimiter.current_cookie c rl now addr)
                        (take (length src - 32) src)
                        (take 16 (drop (length src - 32) src))))
                    (drop 16 (drop (length src - 32) src))
                  ≡ true))
  unfolding RateLimiter.verify_packet RateLimiter.verify_macs RateLimiter.verify_mac2
      RateLimiter.is_under_load RateLimiter.current_cookie
  accepted_checked packet sender e from = (
    ground arith,
    λ loaded. elim (Option-cases src_addr) [
      | inl nowhere ↦ absurd (ground arith)
      | inr (addr, at) ↦ (addr, at, ground arith)
    ],
  )

  -- A datagram that is refused for its MAC1 is not counted, and changes nothing.
  pub bad_mac_uncounted :
      (RateLimiter.verify_packet c rl now src_addr src dst_len).1 ≡ RateLimiter.refused invalid_mac
      → (RateLimiter.verify_packet c rl now src_addr src dst_len).0 ≡ rl
  unfolding RateLimiter.verify_packet RateLimiter.verify_macs RateLimiter.verify_mac2
      RateLimiter.is_under_load RateLimiter.format_cookie_reply
  bad_mac_uncounted e = ground arith
