-- ===== src/RateLimiter.antt =====
-- The MAC checks and the limit on handshake messages, of boringtun/src/noise/rate_limiter.rs.
-- Atomic counters and the mutex are fields that each call takes and returns.
pub mod Calm
pub mod Cookie
pub mod Verify
use pq_boringtun.Base.{
  ℕ, ◌+◌, ◌-◌, ◌/◌, ◌%◌, ◌^◌, Bool, true, false, not, ltb, leb, if◌then◌else◌, ◌++◌, length, take,
  drop, replicate, Option, none, some,
}
use pq_boringtun.Base.Bytes.{Bytes, to_le}
use pq_boringtun.Errors.{
  WireGuardError, Result, ok, err, panics, destination_buffer_too_small, invalid_mac, under_load,
}
use pq_boringtun.Crypto.{Crypto}
use pq_boringtun.Packet.{
  Packet, init, response, cookie, transport, pq_init, pq_response, cookie_reply, cookie_reply_sz,
  parse_incoming_packet,
}
use pq_boringtun.Handshake.Chain.{
  b2s_hash, b2s_keyed_mac_16, b2s_keyed_mac_16_2, b2s_mac_24, label_mac1, label_cookie,
}

abbrev pub cookie_refresh : ℕ
cookie_refresh = 128

abbrev pub reset_period : ℕ
reset_period = 1

-- `IpAddr`, with its octets.
pub data IpAddr : Type 0 where
  v4 v6 : Bytes → IpAddr

pub record RateLimiter : Type 0 where
  pub nonce_key : Bytes
  pub secret_key : Bytes
  pub start_time : ℕ
  pub nonce_ctr : ℕ
  pub mac1_key : Bytes
  pub cookie_key : Bytes
  pub limit : ℕ
  pub count : ℕ
  pub last_reset : ℕ

-- `Result<Packet, TunnResult>`
pub data Verdict : Type 0 where
  accepted : Packet → Verdict
  refused : WireGuardError → Verdict
  write_to_network : Bytes → Verdict
  crashed : Verdict

-- `RateLimiter::reset_count`
unfoldable pub reset_count : RateLimiter → ℕ → RateLimiter
reset_count rl now =
    if leb reset_period ((now - rl.last_reset) / 10 ^ 9)
    then record rl { count = 0; last_reset = now }
    else rl

-- A `fetch_add` that wraps.
unfoldable pub is_under_load : RateLimiter → RateLimiter × Bool
is_under_load rl = (record rl { count = (rl.count + 1) % 2 ^ 64 }, leb rl.limit rl.count)

unfoldable pub address_bytes : IpAddr → Bytes
address_bytes (v4 octets) = octets ++ replicate 12 0
address_bytes (v6 octets) = octets

unfoldable pub sender_of : Packet → Option ℕ
sender_of (init p) = some p.sender_idx
sender_of (response p) = some p.sender_idx
sender_of (pq_init p) = some p.sender_idx
sender_of (pq_response p) = some p.sender_idx
sender_of (cookie p) = none
sender_of (transport p) = none

module _ (c : Crypto) where
  -- `RateLimiter::new`, from the public key, the limit, random bytes and the time.
  unfoldable pub new_rate_limiter : Bytes → ℕ → Bytes → Bytes → ℕ → RateLimiter
  new_rate_limiter public_key limit secret_key nonce_key now = record {
    nonce_key = nonce_key;
    secret_key = secret_key;
    start_time = now;
    nonce_ctr = 0;
    mac1_key = b2s_hash c label_mac1 public_key;
    cookie_key = b2s_hash c label_cookie public_key;
    limit = limit;
    count = 0;
    last_reset = now;
  }

  unfoldable pub current_cookie : RateLimiter → ℕ → IpAddr → Bytes
  current_cookie rl now addr =
      b2s_keyed_mac_16_2 c rl.secret_key (to_le 8 ((now - rl.start_time) / 10 ^ 9 / cookie_refresh))
        (address_bytes addr)

  unfoldable pub nonce : RateLimiter → RateLimiter × Bytes
  nonce rl = (
    record rl { nonce_ctr = (rl.nonce_ctr + 1) % 2 ^ 64 },
    b2s_mac_24 c rl.nonce_key (to_le 8 rl.nonce_ctr),
  )

  unfoldable pub format_cookie_reply :
      RateLimiter → ℕ → Bytes → Bytes → ℕ → RateLimiter × Result Bytes
  format_cookie_reply rl idx value mac1 dst_len =
      if ltb dst_len cookie_reply_sz
      then (rl, err destination_buffer_too_small)
      else let (rl', iv) = nonce rl in
        elim (c.xaead.seal rl.cookie_key iv mac1 value) [
          | none ↦ (rl', err destination_buffer_too_small)
          | some (ciphertext, tag) ↦
              (rl', ok (to_le 4 cookie_reply ++ (to_le 4 idx ++ (iv ++ (ciphertext ++ tag)))))
        ]

  -- MAC2, once a packet has come while the limiter is under load.
  unfoldable pub verify_mac2 :
      RateLimiter
      → ℕ
      → Option IpAddr
      → Packet
      → ℕ
      → Bytes
      → Bytes
      → Bytes
      → ℕ
      → RateLimiter × Verdict
  verify_mac2 rl now src_addr packet sender_idx msg mac1 mac2 dst_len = elim src_addr [
    | none ↦ (rl, refused under_load)
    | some addr ↦
        let value = current_cookie rl now addr in
        if c.verify_slices_are_equal (take 16 (b2s_keyed_mac_16_2 c value msg mac1)) mac2
        then (rl, accepted packet)
        else let (rl', reply) = format_cookie_reply rl sender_idx value mac1 dst_len in
          elim reply [
            | ok bytes ↦ (rl', write_to_network bytes)
            | err e ↦ (rl', refused e)
            | panics ↦ (rl', crashed)
          ]
  ]

  -- A handshake message that has been parsed is longer than its MACs.
  unfoldable pub verify_macs :
      RateLimiter → ℕ → Option IpAddr → Packet → ℕ → Bytes → ℕ → RateLimiter × Verdict
  verify_macs rl now src_addr packet sender_idx src dst_len =
      let msg = take (length src - 32) src in
      let macs = drop (length src - 32) src in
      let mac1 = take 16 macs in
      if not (c.verify_slices_are_equal (take 16 (b2s_keyed_mac_16 c rl.mac1_key msg)) mac1)
      then (rl, refused invalid_mac)
      else let (rl', loaded) = is_under_load rl in
        if loaded
        then verify_mac2 rl' now src_addr packet sender_idx msg mac1 (drop 16 macs) dst_len
        else (rl', accepted packet)

  unfoldable pub verify_packet : RateLimiter → ℕ → Option IpAddr → Bytes → ℕ → RateLimiter × Verdict
  verify_packet rl now src_addr src dst_len = elim (parse_incoming_packet src) [
    | err e ↦ (rl, refused e)
    | panics ↦ (rl, crashed)
    | ok packet ↦ elim (sender_of packet) [
      | none ↦ (rl, accepted packet)
      | some sender_idx ↦ verify_macs rl now src_addr packet sender_idx src dst_len
    ]
  ]
