-- ===== src/Session/Receive.antt =====
-- What `receive_packet_data` accepts, and what it leaves behind.
use pq_boringtun.Base.{ℕ, ◌+◌, ◌^◌, ◌≤◌, ◌<◌, ◌≡◌, refl, ap, ◌∙◌, arith, some, [], ◌∷◌, ◌++◌}
use pq_boringtun.Base.{true, false, length}
use pq_boringtun.Base.Bytes.{Bytes}
use pq_boringtun.Errors.{ok, is_ok}
use pq_boringtun.Aead.{Aead, AeadLaws}
use pq_boringtun.Packet.{PacketData, transport, parse_incoming_packet}
use pq_boringtun.Packet.Complete.{parse-format}
use pq_boringtun.Replay.{n_bits, will_accept, receiving_counter_mark}
use pq_boringtun.Replay.Spec
use pq_boringtun.Replay.Spec.{History, top, member, Distinct}
use pq_boringtun.Replay.Refine.{Tracks, will_accept_refines}
use pq_boringtun.Replay.Delivery.{receiving_counter_mark_refines, mark_refused}
use pq_boringtun.Session.{Session, nonce_of, receive_packet_data}
use pq_boringtun.Session.Send.{IsDataPacket}

module _ (a : Aead) where
  -- A packet that is not accepted, for whatever reason, leaves the session as it was.
  pub receive_refused :
      (s : Session) (p : PacketData) (dst : Bytes)
      → is_ok (receive_packet_data a s p dst).1 ≡ false
      → (receive_packet_data a s p dst).0 ≡ s
  unfolding receive_packet_data
  receive_refused s p dst h = ground (arith, mark_refused s.receiving_key_counter p.counter)

  -- An accepted packet has a counter that the validator marks.
  pub receive_accepted :
      (s : Session) (p : PacketData) (dst : Bytes) {text : Bytes}
      → (receive_packet_data a s p dst).1 ≡ ok text
      → ((receive_packet_data a s p dst).0 ≡ record s {
        receiving_key_counter = (receiving_counter_mark s.receiving_key_counter p.counter).0;
      })
        × (is_ok (receiving_counter_mark s.receiving_key_counter p.counter).1 ≡ true)
        × (p.receiver_idx ≡ s.receiving_index)
        × (a.unseal s.receiver (nonce_of p.counter) [] p.encrypted_encapsulated_packet ≡ some text)
  unfolding receive_packet_data
  receive_accepted s p dst h = ground arith

  -- The validator refuses no packet that is new and within reach: what a session sealed, its peer
  -- opens. The peer has the sender's key and index, a validator that holds the history `h`, and a
  -- buffer with room for the sealed text.
  module _ (limit : ℕ) (laws : AeadLaws a limit) where
    pub receive_data_packet :
        (s : Session) (h : History) (counter : ℕ) (src packet dst : Bytes)
        → IsDataPacket a s.receiver s.receiving_index counter src packet
        → s.receiving_index < 2 ^ 32
        → Tracks s.receiving_key_counter h
        → counter + n_bits < 2 ^ 64
        → top h ≤ counter + n_bits
        → member counter h ≡ false
        → length src + 16 ≤ length dst
        → (p : PacketData) × (s' : Session) × (parse_incoming_packet packet ≡ ok (transport p))
          × (receive_packet_data a s p dst ≡ (s', ok src))
          × Tracks s'.receiving_key_counter (counter ∷ h)
          × (s' ≡ record s { receiving_key_counter = s'.receiving_key_counter })
    unfolding receive_packet_data
    receive_data_packet s h counter src packet dst pkt index t w near new room =
        let v = s.receiving_key_counter in
        let text = pkt.ciphertext ++ pkt.tag in
        let p : PacketData = record {
          receiver_idx = s.receiving_index;
          counter = counter;
          encrypted_encapsulated_packet = text;
        } in
        let quick : will_accept v counter ≡ ok tt =
          will_accept_refines t counter w ∙ Spec.will_accept_new h counter near new in
        let opened =
          laws.unseal_sealed s.receiver (nonce_of counter) [] src pkt.ciphertext pkt.tag
            pkt.sealed in
        let (e, t') = receiving_counter_mark_refines t counter w in
        let fresh_mark = Spec.mark_new h counter near new in
        let marked : (receiving_counter_mark v counter).1 ≡ ok tt = e ∙ ap (λ r. r.1) fresh_mark in
        (
          p,
          record s { receiving_key_counter = (receiving_counter_mark v counter).0 },
          ap parse_incoming_packet pkt.bytes
              ∙ parse-format (transport p) [] (index, omega arith, omega (arith, pkt.size)) refl,
          ground (arith, quick, opened, marked, pkt.size),
          rw fresh_mark at t',
          refl,
        )
