-- ===== src/Session/EndToEnd.antt =====
-- What one session seals, the other opens: whole transfers over a network that reorders packets.
use pq_boringtun.Base.{ℕ, ◌+◌, ◌^◌, ◌≤◌, ◌<◌, ◌≡◌, refl, ap, ◌∙◌, arith, List, [], ◌∷◌, ◌++◌, map}
use pq_boringtun.Base.{false, length, All}
use pq_boringtun.Base.Bytes.{Bytes}
use pq_boringtun.Errors.{Result, ok, err, panics, ◌>>=◌}
use pq_boringtun.Aead.{Aead, AeadLaws}
use pq_boringtun.Packet.{Packet, transport, parse_incoming_packet}
use pq_boringtun.Replay.{n_bits, add64}
use pq_boringtun.Replay.Spec.{History, top, member, Distinct}
use pq_boringtun.Replay.Refine.{Tracks, fresh-Tracks}
use pq_boringtun.Session.{Session, new, receive_packet_data, format_packet_data}
use pq_boringtun.Session.Send.{IsDataPacket, format_packet_data_lem}
use pq_boringtun.Session.Receive.{receive_data_packet}

-- A sealed payload on its way: its counter, the payload and the packet.
pub record Flight : Type 0 where
  pub counter : ℕ
  pub payload : Bytes
  pub packet : Bytes

-- The payload that a call returned, if it did.
delivered : Session × Result Bytes → Session × List Bytes
delivered (s, ok text) = (s, text ∷ [])
delivered (s, err e) = (s, [])
delivered (s, panics) = (s, [])

module _ (a : Aead) (dst : Bytes) where
  open_parsed : Session → Result Packet → Session × List Bytes
  unfolding delivered
  open_parsed s (ok (transport p)) = delivered (receive_packet_data a s p dst)
  open_parsed s other = (s, [])

  -- The datagrams in order of arrival: each is parsed, and opened if it is a data packet.
  pub receive_stream : Session → List Bytes → Session × List Bytes
  unfolding open_parsed
  receive_stream s [] = (s, [])
  receive_stream s (datagram ∷ rest) =
      let (s', got) = open_parsed s (parse_incoming_packet datagram) in
      let (s'', more) = receive_stream s' rest in (s'', got ++ more)

module _ (a : Aead) (limit : ℕ) (laws : AeadLaws a limit) (dst key : Bytes) (index lo hi : ℕ)
    (index_fits : index < 2 ^ 32) (near : hi ≤ lo + n_bits) (small : hi + n_bits ≤ 2 ^ 64) where
  -- Sealed for this receiver, with a counter of the range, and short enough for its buffer.
  abbrev InFlight : Flight → Type 0
  InFlight f =
      IsDataPacket a key index f.counter f.payload f.packet
      × (lo ≤ f.counter)
      × (f.counter < hi)
      × (length f.payload + 16 ≤ length dst)

  abbrev New : History → List Flight → Type 0
  New h fs = All (λ f. member f.counter h ≡ false) fs

  New-cons :
      (x : ℕ) (h : History) (fs : List Flight)
      → member x (map (λ f. f.counter) fs) ≡ false
      → New h fs
      → New (x ∷ h) fs
  New-cons x h [] e n = tt
  New-cons x h (f ∷ fs) e n = (ground (arith, n.0), New-cons x h fs (ground arith) n.1)

  stream_all :
      (fs : List Flight) (s : Session) (h : History)
      → s.receiver ≡ key
      → s.receiving_index ≡ index
      → Tracks s.receiving_key_counter h
      → top h ≤ hi
      → All InFlight fs
      → Distinct (map (λ f. f.counter) fs)
      → New h fs
      → (receive_stream a dst s (map (λ f. f.packet) fs)).1 ≡ map (λ f. f.payload) fs
  unfolding receive_stream
  stream_all [] s h k i t p w d n = refl
  stream_all (f ∷ fs) s h k i t p ((pkt, low, high, room), w) d n =
      let (q, s', parsed, received, t', same) =
        receive_data_packet a limit laws s h f.counter f.payload f.packet dst (rw (k, i) pkt)
          (rw i index_fits) t (omega arith) (omega arith) n.0 room in
      let rest =
        stream_all fs s' (f.counter ∷ h) (ap (λ r. r.receiver) same ∙ k)
          (ap (λ r. r.receiving_index) same ∙ i) t' (omega arith) w d.1
          (New-cons f.counter h fs d.0 n.1) in
      rw (parsed, received) (ap (λ more. f.payload ∷ more) rest)

-- Packets that a peer's session sealed for this new session, whose index is below 2^32, with
-- distinct counters from a range of at most 1024, the range's end at most 2^64 - 1024, arriving
-- in any order, yield exactly their payloads, in the order of arrival, when the receiver's
-- buffer has 16 bytes of room beyond each payload.
pub receive_stream_reordered :
    (a : Aead) (limit : ℕ) (laws : AeadLaws a limit) (dst : Bytes) (index peer lo hi : ℕ)
    (key sending_key : Bytes) (fs : List Flight)
    → index < 2 ^ 32
    → hi ≤ lo + n_bits
    → hi + n_bits ≤ 2 ^ 64
    → All
        (λ f.
          IsDataPacket a key index f.counter f.payload f.packet
          × (lo ≤ f.counter)
          × (f.counter < hi)
          × (length f.payload + 16 ≤ length dst))
        fs
    → Distinct (map (λ f. f.counter) fs)
    → (receive_stream a dst (new index peer key sending_key) (map (λ f. f.packet) fs)).1
      ≡ map (λ f. f.payload) fs
unfolding new
receive_stream_reordered a limit laws dst index peer lo hi key sending_key fs fits near small w d =
    stream_all a limit laws dst key index lo hi fits near small fs (new index peer key sending_key)
      [] refl refl fresh-Tracks (omega arith) w d (all_new fs)
  where
    all_new : (gs : List Flight) → All (λ f. member f.counter [] ≡ false) gs
    all_new [] = tt
    all_new (g ∷ gs) = (refl, all_new gs)

module _ (a : Aead) (dst : Bytes) where
  -- The payloads sealed one after another.
  pub send_all : Session → List Bytes → Result (Session × List Bytes)
  send_all s [] = ok (s, [])
  send_all s (src ∷ rest) = format_packet_data a s src dst >>= λ out.
      send_all out.session rest >>= λ more. ok (more.0, out.packet ∷ more.1)

-- The flights of a run that started at counter `k`.
abbrev pub Consecutive : ℕ → List Flight → Type 0
Consecutive k [] = Unit
Consecutive k (f ∷ fs) = (f.counter ≡ k) × Consecutive (k + 1) fs

-- What a run of `send_all` produced.
pub record Transfer (a : Aead) (dst : Bytes) (s : Session) (srcs : List Bytes) : Type 0 where
  pub after : Session
  pub flights : List Flight
  pub returns : send_all a dst s srcs ≡ ok (after, map (λ f. f.packet) flights)
  pub payloads : map (λ f. f.payload) flights ≡ srcs
  pub counters : Consecutive s.sending_key_counter flights
  pub sealed :
      All (λ f. IsDataPacket a s.sender s.sending_index f.counter f.payload f.packet) flights

-- Every payload that fits the buffer and the cipher is sealed, under consecutive counters.
pub send_all-Transfer :
    (a : Aead) (limit : ℕ) (laws : AeadLaws a limit) (dst : Bytes) (srcs : List Bytes) (s : Session)
    → All (λ src. (length src ≤ limit) × (length src + 32 ≤ length dst)) srcs
    → s.sending_key_counter + length srcs < 2 ^ 64
    → Transfer a dst s srcs
unfolding send_all
send_all-Transfer a limit laws dst [] s w room = record {
  after = s;
  flights = [];
  returns = refl;
  payloads = refl;
  counters = tt;
  sealed = tt;
}
send_all-Transfer a limit laws dst (src ∷ srcs) s ((short, fits), w) room =
    let (out, e, pkt, _, stepped, _) = format_packet_data_lem a limit laws s src dst fits short in
    let next : add64 s.sending_key_counter 1 ≡ s.sending_key_counter + 1 = omega arith in
    let counter : out.session.sending_key_counter ≡ s.sending_key_counter + 1 =
      ap (λ r. r.sending_key_counter) stepped ∙ next in
    let rest = send_all-Transfer a limit laws dst srcs out.session w (omega arith) in
    record {
      after = rest.after;
      flights =
          record { counter = s.sending_key_counter; payload = src; packet = out.packet }
          ∷ rest.flights;
      returns = rw (e, rest.returns);
      payloads = ap (λ r. src ∷ r) rest.payloads;
      counters = (refl, rw counter at rest.counters);
      sealed = (pkt, rw stepped at rest.sealed);
    }
