-- ===== src/Handshake/Tunnelled.antt =====
-- Data after a handshake: the payloads that one party sends reach the other.
use pq_boringtun.Base.{ℕ, ◌+◌, ◌^◌, ◌≤◌, ◌<◌, ◌≡◌, true, List, Option, length}
use pq_boringtun.Base.{All}
use pq_boringtun.Base.Bytes.{Bytes}
use pq_boringtun.Errors.{ok}
use pq_boringtun.Aead.{Aead, AeadLaws}
use pq_boringtun.Crypto.{Crypto, CryptoLaws}
use pq_boringtun.Replay.{n_bits}
use pq_boringtun.Session.{Session}
use pq_boringtun.Session.EndToEnd.{receive_stream, send_all}
use pq_boringtun.Session.Transfer.{session_transfer}
use pq_boringtun.Packet.{
  handshake_init_sz, handshake_resp_sz, pq_handshake_init_sz, pq_handshake_resp_sz,
}
use pq_boringtun.Handshake.{Handshake, parse_tai64n, after, stamp}
use pq_boringtun.Handshake.Initiation.{Surroundings}
use pq_boringtun.Handshake.Seal.{params_of}
use pq_boringtun.Handshake.Agreement.{Linked, Handshaken, handshake_agreement}
use pq_boringtun.Handshake.PqAgreement.{PqHandshaken, pq_handshake_agreement}

-- All the payloads are sealed by `s`, and `t` receives exactly them, in order.
abbrev pub Delivers : Aead → Bytes → Session → Session → List Bytes → Type 0
Delivers a dst s t srcs =
    (after_all : Session) × (packets : List Bytes) × (send_all a dst s srcs
      ≡ ok (after_all, packets))
    × ((receive_stream a dst t packets).1 ≡ srcs)

-- The payloads that a session can send at once, with buffers of the length of `dst`.
abbrev pub Fits : ℕ → Bytes → List Bytes → Type 0
Fits limit dst srcs =
    (length srcs ≤ n_bits) × All (λ src. (length src ≤ limit) × (length src + 32 ≤ length dst)) srcs

module _ (a : Aead) (limit : ℕ) (laws : AeadLaws a limit) (dst : Bytes) (srcs : List Bytes)
    (fits : Fits limit dst srcs) where
  Linked-Delivers : (s t : Session) → Linked s t → Delivers a dst s t srcs × Delivers a dst t s srcs
  Linked-Delivers s t l =
      rw (l.left, l.right)
        (
          session_transfer a limit laws dst l.here l.there l.outbound l.inbound srcs l.there_small
              fits.0 fits.1,
          session_transfer a limit laws dst l.there l.here l.inbound l.outbound srcs l.here_small
              fits.0 fits.1,
        )

module _ (c : Crypto) (limit : ℕ) (laws : CryptoLaws c limit) (alice_secret bob_secret : Bytes)
    (psk : Option Bytes) (alice bob : Handshake) (alice_env bob_env : Surroundings) (now : ℕ) where
  -- After a classical handshake of two parties with matching keys, room for the messages and a
  -- fresh timestamp, up to 1024 payloads that fit the buffers and the cipher are delivered, in
  -- order, from the initiator to the responder, and so are those from the responder.
  pub handshake-Delivers :
      (dst : Bytes) (srcs : List Bytes)
      → alice.params ≡ params_of c alice_secret bob_secret psk
      → bob.params ≡ params_of c bob_secret alice_secret psk
      → alice.next_index < 2 ^ 32
      → bob.next_index < 2 ^ 32
      → handshake_init_sz ≤ alice_env.dst_len
      → handshake_resp_sz ≤ bob_env.dst_len
      → after (parse_tai64n (stamp alice.stamper alice_env.now)) bob.last_handshake_timestamp ≡ true
      → Fits limit dst srcs
      → (m : Handshaken c alice bob alice_env bob_env now) × Delivers c.aead dst m.session
          m.answer.session srcs
        × Delivers c.aead dst m.answer.session m.session srcs
  handshake-Delivers dst srcs pa pb ia ib fa fb later fits =
      let m =
        handshake_agreement c limit laws alice_secret bob_secret psk alice bob alice_env bob_env now
          pa pb ia ib fa fb later in
      let (there, back) =
        Linked-Delivers c.aead limit laws.aead_laws dst srcs fits m.session m.answer.session
          m.linked in
      (m, there, back)

  -- After a PQ handshake of two parties with matching keys, room for the messages and a fresh
  -- timestamp, up to 1024 payloads that fit the buffers and the cipher are delivered, in order,
  -- from the initiator to the responder, and so are those from the responder.
  pub pq_handshake-Delivers :
      (dst : Bytes) (srcs : List Bytes)
      → alice.params ≡ params_of c alice_secret bob_secret psk
      → bob.params ≡ params_of c bob_secret alice_secret psk
      → alice.next_index < 2 ^ 32
      → bob.next_index < 2 ^ 32
      → pq_handshake_init_sz ≤ alice_env.dst_len
      → pq_handshake_resp_sz ≤ bob_env.dst_len
      → after (parse_tai64n (stamp alice.stamper alice_env.now)) bob.last_handshake_timestamp ≡ true
      → Fits limit dst srcs
      → (m : PqHandshaken c alice bob alice_env bob_env now) × Delivers c.aead dst m.session
          m.answer.session srcs
        × Delivers c.aead dst m.answer.session m.session srcs
  pq_handshake-Delivers dst srcs pa pb ia ib fa fb later fits =
      let m =
        pq_handshake_agreement c limit laws alice_secret bob_secret psk alice bob alice_env bob_env
          now pa pb ia ib fa fb later in
      let (there, back) =
        Linked-Delivers c.aead limit laws.aead_laws dst srcs fits m.session m.answer.session
          m.linked in
      (m, there, back)
