-- ===== src/Tunnel/Carries.antt =====
-- Packets through two tunnels: what one encapsulates, the other decapsulates.
use pq_boringtun.Base.{
  ℕ, ◌+◌, ◌%◌, ◌^◌, ◌≤◌, ◌<◌, ◌≡◌, ◌⊎◌, inl, inr, refl, sym, ap, ap₂, ◌∙◌, arith, ◌==◌,
  if◌then◌else◌, List, [], ◌∷◌, length, slice, take_all, ◌≢◌, map, All, Option, some,
}
use pq_boringtun.Base.Bytes.{Bytes, from_be}
use pq_boringtun.Errors.{ok}
use pq_boringtun.Crypto.{Crypto, CryptoLaws}
use pq_boringtun.Packet.{PacketData, transport, parse_incoming_packet}
use pq_boringtun.Replay.{n_bits, add64}
use pq_boringtun.Replay.Spec.{History, top, member-lt-top}
use pq_boringtun.Replay.Refine.{Tracks}
use pq_boringtun.Session.{Session, Sent, format_packet_data, receive_packet_data}
use pq_boringtun.Session.Send.{format_packet_data_lem}
use pq_boringtun.Session.Receive.{receive_data_packet, receive_accepted}
use pq_boringtun.RateLimiter.{IpAddr, sender_of, verify_packet}
use pq_boringtun.Timers.{time_last_packet_received}
use pq_boringtun.Tunnel.{
  Tunn, TunnResult, write_to_network, write_to_tunnel_v4, write_to_tunnel_v6, Moment, store,
  n_sessions, version, ipv4_min_header_size, ipv6_min_header_size, set_current_session, tick,
}
use pq_boringtun.Tunnel.Opened.{passed}
use pq_boringtun.Tunnel.Encapsulate.{encapsulate, send_through}
use pq_boringtun.Tunnel.Decapsulate.{
  deliver_packet, validate_decapsulated_packet, receive_through, handle_data,
  handle_verified_packet, follow_verdict, decapsulate,
}

-- An IP packet with the length that its header states.
abbrev pub IsIpv4 : Bytes → Type 0
IsIpv4 packet =
    (version packet ≡ 4)
    × (ipv4_min_header_size ≤ length packet)
    × (from_be (slice packet 2 4) ≡ length packet)

abbrev pub IsIpv6 : Bytes → Type 0
IsIpv6 packet =
    (version packet ≡ 6)
    × (ipv6_min_header_size ≤ length packet)
    × (from_be (slice packet 4 6) + ipv6_min_header_size ≡ length packet)

-- The packet is written to the tunnel interface, with its source address.
abbrev pub written : Bytes → TunnResult
written packet =
    if version packet == 4
    then write_to_tunnel_v4 packet (slice packet 12 16)
    else write_to_tunnel_v6 packet (slice packet 8 24)

-- The tunnel `a` sends through a session whose peer is in the slot of `b` that it names, and has not
-- yet received the next counter or a later one.
pub record Joined (a b : Tunn) : Type 0 where
  pub sending : Session
  pub receiving : Session
  pub history : History
  pub current : a.sessions (a.current % n_sessions) ≡ some sending
  pub placed : b.sessions (sending.sending_index % n_sessions) ≡ some receiving
  pub small : sending.sending_index < 2 ^ 32
  pub index : receiving.receiving_index ≡ sending.sending_index
  pub key : receiving.receiver ≡ sending.sender
  pub tracks : Tracks receiving.receiving_key_counter history
  pub ahead : top history ≤ sending.sending_key_counter

validate_lem :
    (t : Tunn) (packet : Bytes)
    → IsIpv4 packet ⊎ IsIpv6 packet
    → (validate_decapsulated_packet t packet).1 ≡ written packet
unfolding validate_decapsulated_packet deliver_packet
validate_lem t packet (inl h) = ground (arith, take_all (length packet) packet)
validate_lem t packet (inr h) = ground (arith, take_all (length packet) packet)

validate-sessions :
    (t : Tunn) (packet : Bytes) → (validate_decapsulated_packet t packet).0.sessions ≡ t.sessions
unfolding validate_decapsulated_packet deliver_packet
validate-sessions t packet = ground arith

set_current_session-sessions : (t : Tunn) (i : ℕ) → (set_current_session t i).sessions ≡ t.sessions
unfolding set_current_session
set_current_session-sessions t i = ground arith

module _ (c : Crypto) (limit : ℕ) (laws : CryptoLaws c limit) (a b : Tunn) (j : Joined a b)
    (packet : Bytes) (out m : Moment) (src_addr : Option IpAddr)
    (near : j.sending.sending_key_counter + n_bits < 2 ^ 64) (fits : length packet ≤ limit)
    (room : length packet + 32 ≤ length out.dst) (into : length packet + 16 ≤ length m.dst)
    (ip : IsIpv4 packet ⊎ IsIpv6 packet) where
  -- The datagram is written, and the session that sent it is stored.
  through_lem :
      (sent : Sent)
      → format_packet_data c.aead j.sending packet out.dst ≡ ok sent
      → ((encapsulate c a packet out).1 ≡ write_to_network sent.packet)
        × ((encapsulate c a packet out).0.sessions
            ≡ store a.sessions (a.current % n_sessions) (some sent.session))
        × ((encapsulate c a packet out).0.current ≡ a.current)
  unfolding encapsulate send_through
  through_lem sent e =
      rw (encapsulate, j.current) (rw (send_through, e) (refl, ground arith, ground arith))

  -- A data packet passes the limiter.
  unlimited :
      (p : PacketData) (datagram : Bytes)
      → length datagram ≢ 0
      → parse_incoming_packet datagram ≡ ok (transport p)
      → decapsulate c b src_addr datagram m ≡ handle_data c b p m
  unfolding decapsulate follow_verdict handle_verified_packet verify_packet sender_of
  unlimited p datagram n parsed =
      passed c b src_addr datagram m b.rate_limiter (transport p) n
        (rw (verify_packet, parsed) refl)

  data_lem :
      (p : PacketData) (r : Session)
      → b.sessions (p.receiver_idx % n_sessions) ≡ some j.receiving
      → receive_packet_data c.aead j.receiving p m.dst ≡ (r, ok packet)
      → ((handle_data c b p m).1 ≡ written packet)
        × ((handle_data c b p m).0.sessions
            ≡ store b.sessions (p.receiver_idx % n_sessions) (some r))
  unfolding handle_data receive_through
  data_lem p r there received =
      let t1 = record b { sessions = store b.sessions (p.receiver_idx % n_sessions) (some r) } in
      let t2 = tick (set_current_session t1 p.receiver_idx) time_last_packet_received in
      rw (handle_data, there)
        (rw (receive_through, received)
          (
            validate_lem t2 packet ip,
            validate-sessions t2 packet ∙ set_current_session-sessions t1 p.receiver_idx,
          ))

  -- One packet from `a` to `b`.
  pub record Carried : Type 0 where
    pub datagram : Bytes
    pub writes : (encapsulate c a packet out).1 ≡ write_to_network datagram
    pub delivers : (decapsulate c b src_addr datagram m).1 ≡ written packet
    pub joined : Joined (encapsulate c a packet out).0 (decapsulate c b src_addr datagram m).0
    pub stepped : joined.sending.sending_key_counter ≡ j.sending.sending_key_counter + 1

  carried_by :
      (sent : Sent) (p : PacketData) (r : Session)
      → format_packet_data c.aead j.sending packet out.dst ≡ ok sent
      → length sent.packet ≡ length packet + 32
      → sent.session
        ≡ record (j.sending) { sending_key_counter = add64 j.sending.sending_key_counter 1 }
      → parse_incoming_packet sent.packet ≡ ok (transport p)
      → receive_packet_data c.aead j.receiving p m.dst ≡ (r, ok packet)
      → Tracks r.receiving_key_counter (j.sending.sending_key_counter ∷ j.history)
      → r ≡ record (j.receiving) { receiving_key_counter = r.receiving_key_counter }
      → Carried
  carried_by sent p r e size stepped parsed received tracks same =
      let (_, written_to, current) = through_lem sent e in
      let whole = unlimited p sent.packet (λ z. absurd (omega arith)) parsed in
      let (_, _, mine, _) = receive_accepted c.aead j.receiving p m.dst (ap (λ o. o.1) received) in
      let named : p.receiver_idx ≡ j.sending.sending_index = mine ∙ j.index in
      let (delivers, stored) = data_lem p r (rw named j.placed) received in
      let next : sent.session.sending_key_counter ≡ j.sending.sending_key_counter + 1 =
        ap (λ s. s.sending_key_counter) stepped ∙ omega arith in
      let to : sent.session.sending_index ≡ j.sending.sending_index =
        ap (λ s. s.sending_index) stepped in
      record {
        datagram = sent.packet;
        writes = (through_lem sent e).0;
        delivers = ap (λ o. o.1) whole ∙ delivers;
        joined = record {
          sending = sent.session;
          receiving = r;
          history = j.sending.sending_key_counter ∷ j.history;
          current = rw (current, written_to) ground arith;
          placed = rw (to, whole, stored, named) ground arith;
          small = rw to j.small;
          index = ap (λ s. s.receiving_index) same ∙ j.index ∙ sym to;
          key = ap (λ s. s.receiver) same ∙ j.key ∙ sym (ap (λ s. s.sender) stepped);
          tracks = tracks;
          ahead = omega (arith, next, j.ahead);
        };
        stepped = next;
      }

  pub datagram-Carried : Carried
  datagram-Carried =
      let counter = j.sending.sending_key_counter in
      let (sent, e, is_data, size, stepped, rest) =
        format_packet_data_lem c.aead limit laws.aead_laws j.sending packet out.dst room fits in
      let (p, r, parsed, received, tracks, same) =
        receive_data_packet c.aead limit laws.aead_laws j.receiving j.history counter packet
          sent.packet m.dst (rw (j.key, j.index) is_data) (rw j.index j.small) j.tracks near
          (omega (arith, j.ahead)) (member-lt-top counter j.history j.ahead) into in
      carried_by sent p r e size stepped parsed received tracks same

-- The packets go one by one through `a`, and each datagram straight on through `b`.
module _ (c : Crypto) (out m : Moment) (src_addr : Option IpAddr) where
  unfoldable pub exchange : Tunn → Tunn → List Bytes → List TunnResult
  exchange a b [] = []
  exchange a b (packet ∷ rest) =
      let (a', sent) = encapsulate c a packet out in
      elim sent [
        | write_to_network datagram ↦
            let (b', got) = decapsulate c b src_addr datagram m in got ∷ exchange a' b' rest
        | other ↦ other ∷ []
      ]

module _ (c : Crypto) (limit : ℕ) (laws : CryptoLaws c limit) (out m : Moment)
    (src_addr : Option IpAddr) where
  -- Any number of IP packets with the lengths that their headers state, sent through a tunnel that is
  -- joined to another, come out of the other one in order, each with its source address; there is
  -- room for each in the buffers, and the counters stay 1024 below 2^64.
  pub exchange-written :
      (packets : List Bytes) (a b : Tunn) (j : Joined a b)
      → j.sending.sending_key_counter + length packets + n_bits ≤ 2 ^ 64
      → All
          (λ packet.
            (IsIpv4 packet ⊎ IsIpv6 packet)
            × (length packet ≤ limit)
            × (length packet + 32 ≤ length out.dst)
            × (length packet + 16 ≤ length m.dst))
          packets
      → exchange c out m src_addr a b packets ≡ map written packets
  unfolding exchange
  exchange-written [] a b j near h = refl
  exchange-written (packet ∷ rest) a b j near ((ip, fits, room, into), h) =
      let k =
        datagram-Carried c limit laws a b j packet out m src_addr (omega arith) fits room into ip in
      rw (exchange, k.writes)
        (ap₂ ◌∷◌ k.delivers (
          exchange-written rest (encapsulate c a packet out).0
            (decapsulate c b src_addr k.datagram m).0 k.joined (omega (arith, k.stepped)) h))
