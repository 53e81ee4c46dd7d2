-- ===== src/RateLimiter/Cookie.antt =====
-- The cookie that a limiter under load asks for: its reply is understood, and a message that carries
-- the cookie passes.
use pq_boringtun.Base.{
  ℕ, ◌-◌, ◌^◌, ◌≤◌, ◌<◌, ◌≡◌, refl, sym, ap, ◌∙◌, arith, ◌++◌, [], length, take, some, inl, inr,
  Bool-cases,
}
use mathlib.Core.List.{append-nil}
use pq_boringtun.Base.{le→ltb, length-append, take-append, drop-append}
use pq_boringtun.Base.Bytes.{Bytes, to_le}
use pq_boringtun.Errors.{ok}
use pq_boringtun.Crypto.{Crypto, CryptoLaws}
use pq_boringtun.Packet.{Packet, PacketCookieReply, cookie, cookie_reply_sz, parse_incoming_packet}
use pq_boringtun.Packet.Format.{format}
use pq_boringtun.Packet.Complete.{parse-format}
use pq_boringtun.Handshake.{Handshake}
use pq_boringtun.Handshake.Chain.{
  b2s_hash, b2s_keyed_mac_16, b2s_keyed_mac_16_2, b2s_mac_24, label_cookie,
}
use pq_boringtun.Handshake.Initiation.{append_mac1_and_mac2}
use pq_boringtun.Handshake.Completion.{open_cookie, receive_cookie_reply}
use pq_boringtun.RateLimiter

-- The reply on the wire, as the packet that it is parsed to.
pub record CookieReply (c : Crypto) (rl : RateLimiter.RateLimiter) (idx : ℕ) (value mac1 : Bytes)
    (dst_len : ℕ) : Type 0 where
  pub message : Bytes
  pub packet : PacketCookieReply
  pub returns :
      RateLimiter.format_cookie_reply c rl idx value mac1 dst_len
      ≡ ((RateLimiter.nonce c rl).0, ok message)
  pub arrives : parse_incoming_packet message ≡ ok (cookie packet)
  pub understood :
      (h : Handshake)
      → h.cookies.last_mac1 ≡ some mac1
      → h.cookies.index ≡ idx
      → rl.cookie_key ≡ b2s_hash c label_cookie h.params.peer_static_public
      → receive_cookie_reply c h packet
        ≡ (record h { cookies = record (h.cookies) { write_cookie = some value } }, ok tt)

module _ (c : Crypto) (limit : ℕ) (laws : CryptoLaws c limit) where
  -- With room for the reply, a cookie of 16 bytes reaches the initiator that sent the MAC, and only
  -- its cookie changes.
  pub format-CookieReply :
      (rl : RateLimiter.RateLimiter) (idx : ℕ) (value mac1 : Bytes) (dst_len : ℕ)
      → idx < 2 ^ 32
      → length value ≡ 16
      → cookie_reply_sz ≤ dst_len
      → CookieReply c rl idx value mac1 dst_len
  unfolding RateLimiter.format_cookie_reply RateLimiter.nonce receive_cookie_reply open_cookie
      format b2s_mac_24
  format-CookieReply rl idx value mac1 dst_len small size fits =
      let room = laws.room in
      let a = laws.xaead_laws in
      let iv = b2s_mac_24 c rl.nonce_key (to_le 8 rl.nonce_ctr) in
      let (ct, tag, e) = a.seals rl.cookie_key iv mac1 value (omega arith) in
      let (n, m) = a.seal_sizes rl.cookie_key iv mac1 value ct tag e in
      let p : PacketCookieReply = record {
        receiver_idx = idx;
        nonce = iv;
        encrypted_cookie = ct ++ tag;
      } in
      record {
        message = format (cookie p) [];
        packet = p;
        returns =
            rw (le→ltb dst_len 64 fits, e)
              (ap
                (λ body.
                  ((RateLimiter.nonce c rl).0, ok (to_le 4 3 ++ (to_le 4 idx ++ (iv ++ body)))))
                (sym (append-nil (ct ++ tag))));
        arrives =
            parse-format (cookie p) []
              (
                small,
                laws.mac_size 24 rl.nonce_key (to_le 8 rl.nonce_ctr),
                omega (arith, length-append ct tag),
              )
              refl;
        understood = λ h mac index key.
            let opened : open_cookie c h.params p mac1 ≡ ok value =
              rw (← key, a.unseal_sealed rl.cookie_key iv mac1 value ct tag e, size) in
            ground arith;
      }

  whole : (n : ℕ) (bs : Bytes) → length bs ≡ n → take n bs ≡ bs
  whole n bs e = ap (take n) (sym (append-nil bs)) ∙ take-append n bs [] e

  -- What `append_mac1_and_mac2` writes with a cookie: MAC1 and MAC2, of 16 bytes each.
  pub macs_of :
      (h : Handshake) (index : ℕ) (body value : Bytes)
      → h.cookies.write_cookie ≡ some value
      → (append_mac1_and_mac2 c h index body).1
        ≡ body
          ++ (b2s_keyed_mac_16 c h.params.sending_mac1_key body
              ++ b2s_keyed_mac_16_2 c value body
                  (b2s_keyed_mac_16 c h.params.sending_mac1_key body))
  unfolding append_mac1_and_mac2 b2s_keyed_mac_16_2 b2s_keyed_mac_16
  macs_of h index body value e = rw (append_mac1_and_mac2, e)

  -- A MAC2 under the current cookie passes.
  mac2_passes :
      (rl : RateLimiter.RateLimiter) (now : ℕ) (addr : RateLimiter.IpAddr) (packet : Packet)
      (idx : ℕ) (body mac1 : Bytes) (dst_len : ℕ)
      → RateLimiter.verify_mac2 c rl now
          (some addr)
          packet
          idx
          body
          mac1
          (b2s_keyed_mac_16_2 c (RateLimiter.current_cookie c rl now addr) body mac1)
          dst_len
        ≡ (rl, RateLimiter.accepted packet)
  unfolding RateLimiter.verify_mac2 b2s_keyed_mac_16_2
  mac2_passes rl now addr packet idx body mac1 dst_len =
      let value = RateLimiter.current_cookie c rl now addr in
      let mac2 = b2s_keyed_mac_16_2 c value body mac1 in
      let w = whole 16 mac2 (laws.mac_size 16 value (body ++ mac1)) in
      rw (w, (laws.equal_iff mac2 mac2).1 refl)

  -- The limiter takes a message apart into its body and its two MACs, and computes the same.
  pub verified :
      (rl : RateLimiter.RateLimiter) (now : ℕ) (addr : RateLimiter.IpAddr) (packet : Packet)
      (idx : ℕ) (body : Bytes) (dst_len : ℕ)
      → (RateLimiter.verify_macs c rl now
          (some addr)
          packet
          idx
          (body
            ++ (b2s_keyed_mac_16 c rl.mac1_key body
                ++ b2s_keyed_mac_16_2 c
                    (RateLimiter.current_cookie c rl now addr)
                    body
                    (b2s_keyed_mac_16 c rl.mac1_key body)))
          dst_len).1
        ≡ RateLimiter.accepted packet
  unfolding RateLimiter.verify_macs RateLimiter.current_cookie RateLimiter.is_under_load
  verified rl now addr packet idx body dst_len =
      let mac1 = b2s_keyed_mac_16 c rl.mac1_key body in
      let mac2 = b2s_keyed_mac_16_2 c (RateLimiter.current_cookie c rl now addr) body mac1 in
      let n1 : length mac1 ≡ 16 = unfold b2s_keyed_mac_16 in laws.mac_size 16 rl.mac1_key body in
      let n2 : length mac2 ≡ 16 =
        unfold b2s_keyed_mac_16_2 in
        laws.mac_size 16 (RateLimiter.current_cookie c rl now addr) (body ++ mac1) in
      let len : length body ≡ length (body ++ (mac1 ++ mac2)) - 32 =
        omega (arith, length-append {0}) in
      let t1 = take-append _ body (mac1 ++ mac2) len in
      let d1 = drop-append _ body (mac1 ++ mac2) len in
      let t2 = take-append 16 mac1 mac2 n1 in
      let d2 = drop-append 16 mac1 mac2 n1 in
      let w1 = whole 16 mac1 n1 in
      let same1 = (laws.equal_iff mac1 mac1).1 refl in
      let counted = (RateLimiter.is_under_load rl).0 in
      let passes = mac2_passes counted now addr packet idx body mac1 dst_len in
      elim (Bool-cases (RateLimiter.is_under_load rl).1) [
        | inl loaded ↦
            rw (RateLimiter.verify_macs, t1, d1, t2, d2, w1, same1, loaded) (ap (λ o. o.1) passes)
        | inr calm ↦ rw (RateLimiter.verify_macs, t1, d1, t2, d2, w1, same1, calm)
      ]
