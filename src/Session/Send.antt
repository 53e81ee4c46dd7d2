-- ===== src/Session/Send.antt =====
-- What `format_packet_data` writes, and that the other end reads it back.
use pq_boringtun.Base.{
  ℕ, ◌+◌, ◌^◌, ◌≤◌, ◌<◌, ◌≡◌, refl, sym, ap, ◌∙◌, arith, some, [], ◌++◌, append_assoc,
}
use mathlib.Core.List.{append-nil}
use pq_boringtun.Base.{length, drop, lt→ltb, le→ltb, length-append, take-append, drop-drop}
use pq_boringtun.Base.Bytes.{Bytes, to_le, from_le, from_le-to_le, length-to_le}
use pq_boringtun.Errors.{ok, panics}
use pq_boringtun.Aead.{Aead, AeadLaws}
use pq_boringtun.Packet.{PacketData, transport}
use pq_boringtun.Packet.Format.{format}
use pq_boringtun.Replay.{add64}
use pq_boringtun.Session.{Session, Sent, nonce_of, format_packet_data}

-- A data packet under a given key, addressed to a given index.
pub record IsDataPacket (a : Aead) (key : Bytes) (index counter : ℕ) (src packet : Bytes)
    : Type 0 where
  pub ciphertext : Bytes
  pub tag : Bytes
  pub sealed : a.seal key (nonce_of counter) [] src ≡ some (ciphertext, tag)
  pub size : length (ciphertext ++ tag) ≡ length src + 16
  pub bytes :
      packet
      ≡ format
          (transport (record {
            receiver_idx = index;
            counter = counter;
            encrypted_encapsulated_packet = ciphertext ++ tag;
          }))
          []

module _ (a : Aead) (limit : ℕ) (laws : AeadLaws a limit) where
  open laws use {seals, seal_sizes}

  -- A message in front of the rest of the buffer.
  layout :
      (index counter : ℕ) (ct tag rest : Bytes)
      → let p : PacketData = record {
        receiver_idx = index;
        counter = counter;
        encrypted_encapsulated_packet = ct ++ tag;
      } in
        to_le 4 4 ++ (to_le 4 index ++ (to_le 8 counter ++ (ct ++ (tag ++ rest))))
        ≡ format (transport p) [] ++ rest
  unfolding format
  layout index counter ct tag rest = simp (append_assoc, append-nil)

  length-data_packet :
      (index counter : ℕ) (text : Bytes)
      → length (
          format
            (transport (record {
              receiver_idx = index;
              counter = counter;
              encrypted_encapsulated_packet = text;
            }))
            [])
        ≡ length text + 16
  unfolding format
  length-data_packet index counter text = omega (arith, length-append {0}, length-to_le)

  -- With 32 bytes more room than the payload takes, and a payload that the cipher seals,
  -- `format_packet_data` returns the data packet with the session's counter, steps the counter,
  -- changes no other field of the session, and leaves the rest of the buffer as it was.
  pub format_packet_data_lem :
      (s : Session) (src dst : Bytes)
      → length src + 32 ≤ length dst
      → length src ≤ limit
      → (out : Sent) × (format_packet_data a s src dst ≡ ok out)
        × IsDataPacket a s.sender s.sending_index s.sending_key_counter src out.packet
        × (length out.packet ≡ length src + 32)
        × (out.session ≡ record s { sending_key_counter = add64 s.sending_key_counter 1 })
        × (out.buffer ≡ out.packet ++ drop (length src + 32) dst)
  unfolding format_packet_data
  format_packet_data_lem s src dst room fits =
      let (ct, tag, e) = seals s.sender (nonce_of s.sending_key_counter) [] src fits in
      let (n, m) = seal_sizes s.sender (nonce_of s.sending_key_counter) [] src ct tag e in
      let rest = drop (length src + 16) (drop 16 dst) in
      let text = ct ++ tag in
      let size : length text ≡ length src + 16 = omega (arith, length-append ct tag) in
      let packet =
        format
          (transport (record {
            receiver_idx = s.sending_index;
            counter = s.sending_key_counter;
            encrypted_encapsulated_packet = text;
          }))
          [] in
      let len : length packet ≡ 16 + (length src + 16) =
        omega (arith, length-data_packet s.sending_index s.sending_key_counter text) in
      let whole = layout s.sending_index s.sending_key_counter ct tag rest in
      let behind : rest ≡ drop (length src + 32) dst =
        drop-drop (length src + 16) 16 dst
        ∙ ap (λ k. drop k dst) {x = 16 + (length src + 16)} (omega arith) in
      (
        record {
          session = record s { sending_key_counter = add64 s.sending_key_counter 1 };
          buffer = packet ++ rest;
          packet = packet;
        },
        rw (le→ltb (length dst) (length src + 32) room, e, whole, take-append _ packet rest len),
        record { ciphertext = ct; tag = tag; sealed = e; size = size; bytes = refl },
        omega arith,
        refl,
        ap (λ r. packet ++ r) behind,
      )

-- Without that room the function panics.
pub format_packet_data_small :
    (a : Aead) (s : Session) (src dst : Bytes)
    → length dst < length src + 32
    → format_packet_data a s src dst ≡ panics
unfolding format_packet_data
format_packet_data_small a s src dst small = rw (lt→ltb (length dst) (length src + 32) small)

-- The nonces of a session are apart until the counter has gone through all 2^64 values.
pub nonce_of_injective : (c d : ℕ) → c < 2 ^ 64 → d < 2 ^ 64 → nonce_of c ≡ nonce_of d → c ≡ d
unfolding nonce_of
nonce_of_injective c d h k e =
    sym (from_le-to_le 8 c h) ∙ ap (λ bs. from_le (drop 4 bs)) e ∙ from_le-to_le 8 d k
