-- ===== src/Tunnel/Meeting.antt =====
-- What a handshake between two tunnels leaves, and the packet that waited for it.
use pq_boringtun.Base.{
  ℕ, ◌+◌, ◌%◌, ◌^◌, ◌≤◌, ◌<◌, ◌≡◌, ◌⊎◌, sym, ap, ◌∙◌, arith, false, [], ◌∷◌, length, Option, none,
  some,
}
use pq_boringtun.Base.Bytes.{Bytes}
use pq_boringtun.Crypto.{Crypto, CryptoLaws}
use pq_boringtun.Replay.Refine.{fresh-Tracks}
use pq_boringtun.Replay.{add64}
use pq_boringtun.Session.{Session, new}
use pq_boringtun.Handshake.{is_in_progress}
use pq_boringtun.Handshake.Chain.{b2s_hash, label_mac1}
use pq_boringtun.Handshake.Seal.{params_of}
use pq_boringtun.RateLimiter.{IpAddr}
use pq_boringtun.Tunnel.{Tunn, write_to_network, Moment, store, n_sessions}
use pq_boringtun.Tunnel.Encapsulate.{settle, encapsulate, send_next, send_queued_packet}
use pq_boringtun.Tunnel.Decapsulate.{decapsulate}
use pq_boringtun.Tunnel.Carries.{IsIpv4, IsIpv6, written, Joined, datagram-Carried}
use pq_boringtun.Handshake.Agreement.{Linked}

-- A tunnel with its own secret for a peer, whose limiter checks the MACs under its own public key
-- and is not under load.
pub record IsPeer (c : Crypto) (own peer : Bytes) (psk : Option Bytes) (t : Tunn) : Type 0 where
  pub params : t.handshake.params ≡ params_of c own peer psk
  pub index : t.handshake.next_index < 2 ^ 32
  pub limiter : t.rate_limiter.mac1_key ≡ b2s_hash c label_mac1 (c.public_key own)
  pub calm : t.rate_limiter.count < t.rate_limiter.limit

-- A tunnel without a session, a handshake or a packet that waits.
pub record IsIdle (t : Tunn) : Type 0 where
  pub empty : t.sessions (t.current % n_sessions) ≡ none
  pub idle : is_in_progress t.handshake ≡ false
  pub nothing : t.packet_queue ≡ []

pub stored_there :
    (sessions : ℕ → Option Session) (slot : ℕ) (s : Session)
    → store sessions slot (some s) slot ≡ some s
stored_there sessions slot s = ground arith

-- What waits alone in the queue goes out through the session.
flushes :
    (c : Crypto) (t t' : Tunn) (packet datagram : Bytes) (m : Moment) (src_addr : Option IpAddr)
    → t.packet_queue ≡ packet ∷ []
    → encapsulate c (record t { packet_queue = [] }) packet m ≡ (t', write_to_network datagram)
    → decapsulate c t src_addr [] m ≡ (t', write_to_network datagram)
unfolding decapsulate send_queued_packet send_next
flushes c t t' packet datagram m src_addr e sent = rw e (ap (settle packet) sent)

module _ (c : Crypto) (a b : Tunn) (packet : Bytes) (ma mb mc : Moment)
    (from_alice from_bob : Option IpAddr) where
  -- The three messages of the handshake, and the sessions that they leave.
  pub record Meeting : Type 0 where
    pub initiation : Bytes
    pub response : Bytes
    pub keepalive : Bytes
    pub alice_waits : Tunn
    pub bob_open : Tunn
    pub alice_open : Tunn
    pub initiates : encapsulate c a packet ma ≡ (alice_waits, write_to_network initiation)
    pub responds : decapsulate c b from_alice initiation mb ≡ (bob_open, write_to_network response)
    pub confirms :
        decapsulate c alice_waits from_bob response mc ≡ (alice_open, write_to_network keepalive)
    pub queue : alice_open.packet_queue ≡ packet ∷ []
    pub joined : Joined alice_open bob_open
    pub first : joined.sending.sending_key_counter ≡ 1

  -- The handshake, and what follows it: the packet that waited is sent, and arrives.
  pub record Exchange (md me : Moment) : Type 0 where
    pub meeting : Meeting
    pub datagram : Bytes
    pub alice_done : Tunn
    pub bob_done : Tunn
    pub flushed :
        decapsulate c meeting.alice_open none [] md ≡ (alice_done, write_to_network datagram)
    pub delivered :
        decapsulate c meeting.bob_open from_alice datagram me ≡ (bob_done, written packet)
    pub joined : Joined alice_done bob_done
    pub second : joined.sending.sending_key_counter ≡ 2

-- Sessions that are each other's counterparts join two tunnels, after the first packet.
pub joins :
    (s t : Session) (l : Linked s t) (s' : Session) (a2 b1 : Tunn)
    → s' ≡ record s { sending_key_counter = add64 s.sending_key_counter 1 }
    → a2.sessions (a2.current % n_sessions) ≡ some s'
    → b1.sessions (t.receiving_index % n_sessions) ≡ some t
    → (j : Joined a2 b1) × (j.sending.sending_key_counter ≡ 1)
unfolding new
joins s t l s' a2 b1 stepped mine theirs =
    let fresh_session : s'
        ≡ record (new l.here l.there l.inbound l.outbound) { sending_key_counter = 1 } =
      stepped
      ∙ ap (λ (s : Session). record s { sending_key_counter = add64 s.sending_key_counter 1 })
          l.left in
    let to = ap (λ q. q.sending_index) fresh_session in
    let from = ap (λ s. s.receiving_index) l.right in
    (
      record {
        sending = s';
        receiving = t;
        history = [];
        current = mine;
        placed = ap (λ i. b1.sessions (i % n_sessions)) (to ∙ sym from) ∙ theirs;
        small = rw to l.there_small;
        index = from ∙ sym to;
        key = ap (λ s. s.receiver) l.right ∙ sym (ap (λ s. s.sender) fresh_session);
        tracks = rw (ap (λ s. s.receiving_key_counter) l.right) fresh-Tracks;
        ahead = omega arith;
      },
      ap (λ s. s.sending_key_counter) fresh_session,
    )

module _ (c : Crypto) (limit : ℕ) (laws : CryptoLaws c limit) (a b : Tunn) (packet : Bytes)
    (ma mb mc : Moment) (from_alice from_bob : Option IpAddr) where
  -- After the handshake, the packet that waited goes out, and arrives.
  pub meeting-Exchange :
      (k : Meeting c a b packet ma mb mc from_alice from_bob) (md me : Moment)
      → length packet ≤ limit
      → length packet + 32 ≤ length md.dst
      → length packet + 16 ≤ length me.dst
      → IsIpv4 packet ⊎ IsIpv6 packet
      → Exchange c a b packet ma mb mc from_alice from_bob md me
  meeting-Exchange k md me fits room into ip =
      let j = k.joined in
      let emptied : Joined (record (k.alice_open) { packet_queue = [] }) k.bob_open = record {
        sending = j.sending;
        receiving = j.receiving;
        history = j.history;
        current = j.current;
        placed = j.placed;
        small = j.small;
        index = j.index;
        key = j.key;
        tracks = j.tracks;
        ahead = j.ahead;
      } in
      let carried =
        datagram-Carried c limit laws (record (k.alice_open) { packet_queue = [] }) k.bob_open
          emptied packet md me from_alice (omega (arith, k.first)) fits room into ip in
      let t' = (encapsulate c (record (k.alice_open) { packet_queue = [] }) packet md).0 in
      let b' = (decapsulate c k.bob_open from_alice carried.datagram me).0 in
      record {
        meeting = k;
        datagram = carried.datagram;
        alice_done = t';
        bob_done = b';
        flushed =
            flushes c k.alice_open t' packet carried.datagram md none k.queue
              (ap (λ r. (t', r)) carried.writes);
        delivered = ap (λ r. (b', r)) carried.delivers;
        joined = carried.joined;
        second = omega (arith, carried.stepped, k.first);
      }
