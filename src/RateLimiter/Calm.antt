-- ===== src/RateLimiter/Calm.antt =====
-- A limiter that is not under load, of boringtun/src/noise/rate_limiter.rs.
use pq_boringtun.Base.{
  ℕ, ◌-◌, ◌<◌, ◌≡◌, refl, arith, false, ◌++◌, length, take_all, take-append, drop-append,
  length-append, leb, Option, some,
}
use pq_boringtun.Base.Bytes.{Bytes}
use pq_boringtun.Errors.{ok}
use pq_boringtun.Crypto.{Crypto, CryptoLaws}
use pq_boringtun.Packet.{Packet, parse_incoming_packet}
use pq_boringtun.Handshake.Chain.{b2s_keyed_mac_16}
use pq_boringtun.Handshake.Mac1.{HasMac1}
use pq_boringtun.RateLimiter.{
  RateLimiter, IpAddr, accepted, sender_of, is_under_load, verify_macs, verify_packet,
}

-- Below its limit, a limiter accepts a handshake message with a MAC1 under its key, from anywhere,
-- and counts it.
pub calm_passes :
    (c : Crypto) (limit : ℕ) (laws : CryptoLaws c limit) (rl : RateLimiter) (now : ℕ)
    (src_addr : Option IpAddr) (text : Bytes) (packet : Packet) (sender dst_len : ℕ)
    → HasMac1 c rl.mac1_key text
    → rl.count < rl.limit
    → parse_incoming_packet text ≡ ok packet
    → sender_of packet ≡ some sender
    → verify_packet c rl now src_addr text dst_len ≡ ((is_under_load rl).0, accepted packet)
unfolding verify_packet verify_macs is_under_load b2s_keyed_mac_16
calm_passes c limit laws rl now src_addr text packet sender dst_len m calm parsed from =
    let mac1 = b2s_keyed_mac_16 c rl.mac1_key m.body in
    let n1 : length mac1 ≡ 16 = laws.mac_size 16 rl.mac1_key m.body in
    let len : length m.body ≡ length (m.body ++ (mac1 ++ m.rest)) - 32 =
      omega (arith, length-append {0}, m.size) in
    let below : leb rl.limit rl.count ≡ false = ground arith in
    rw (verify_packet, parsed, from, m.layout)
      (rw
        (
          verify_macs,
          take-append _ m.body (mac1 ++ m.rest) len,
          drop-append _ m.body (mac1 ++ m.rest) len,
          take-append 16 mac1 m.rest n1,
          take_all 16 mac1 (omega arith),
          (laws.equal_iff mac1 mac1).1 refl,
          below,
        )
        refl)
